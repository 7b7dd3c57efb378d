-- ===== src/Control/Soundness.antt =====
-- client.go and tunnel.go: each step of a control channel keeps its accounts.
use rstream_go.Base.{
  ℕ, Bool, Option, none, some, refl, arith, get_elem?, weight, if_rule, option_rule, Text,
}
use rstream_go.Cors.{Runes}
use rstream_go.Tunnel.{TunnelProperties}
use rstream_go.Control.{Control, detach_cleanup}
use rstream_go.Control.Heartbeats.{Liveness, send_heartbeat, handle_heartbeat}
use rstream_go.Control.Channels.{
  Datagrams, close_channel, insert_channel, fail_channel, accept_channel, unregister,
}
use rstream_go.Control.Replies
use rstream_go.Control.Replies.{IsTracked, tally, replied, waiting, in_cleanup}
use rstream_go.Control.Tunnels
use rstream_go.Control.Tunnels.{IsOwned, open_at}
use rstream_go.Control.Proxy.{ProxyState}
use rstream_go.Control.Proxy.Balance
use rstream_go.Control.Proxy.Balance.{
  IsBalanced, pending_at, unanswered, of_tunnel, load, load_responses,
}
use rstream_go.Control.Proxy.Held
use rstream_go.Control.Proxy.Held.{IsHeld, IsOwned-IsMapped}
use rstream_go.Control.Proxy.Counters
use rstream_go.Control.Proxy.Counters.{Counts, Counts-IsBalanced}
use rstream_go.Control.Messages.{
  Message, open_tunnel_rsp, close_tunnel_rsp, proxy_conn_req, datagram_channel_close,
  close_control_channel_rsp, heartbeat, other_message, Next, read_on, stop_with, handle_message,
  receive, Action, receiving, failing_with, cleaning, withdrawing, closing, closing_tunnel, beating,
  inserting_channel, failing_channel, accepting_channel, unregistering, taking_request,
  finishing_request, taking_response, writing_response, act, Step, acts, requests,
}
use rstream_go.Control.Connect.{connected}

-- The accounts of the response channels, of the tunnels and of the proxy requests.
pub record IsSound (p : ProxyState) : Type 0 where
  pub held : IsHeld p.control
  pub balanced : IsBalanced p

pub connected-IsSound : (provider : Bool) (timeout : ℕ) → IsSound (connected provider timeout)
connected-IsSound provider timeout = record {
  held = record {
    tracked = record {
      is_unique = tt;
      tracked = λ n. unfold weight in ground arith;
      no_cleanup = λ _. refl;
    };
    owned = record {
      unique_tunnels = tt;
      owned = λ n. unfold weight in unfold get_elem? in refl;
      no_task = λ _. refl;
      is_empty = λ h. absurd (ground (arith, h));
    };
  };
  balanced = record {
    answered = λ f. refl;
    counted = λ n. unfold get_elem? in refl;
    idle = λ _. (refl, refl, refl);
  };
}

-- A step of the control channel alone.
control-IsSound :
    (p : ProxyState) (d : Control)
    → Counts p.control d
    → IsTracked d
    → IsOwned d
    → IsSound p
    → IsSound (record p { control = d })
control-IsSound p d s t o v = record {
  held = record { tracked = t; owned = o };
  balanced = Counts-IsBalanced p d s v.balanced;
}

-- Steps on heartbeats and on datagram channels.
apart-IsSound :
    (p : ProxyState) (l : Liveness) (g : Datagrams)
    → IsSound p
    → IsSound (record p { control = record p.control { liveness = l; datagrams = g } })
apart-IsSound p l g v =
    let t = v.held.tracked in
    let o = v.held.owned in
    control-IsSound p (record p.control { liveness = l; datagrams = g }) (λ _. refl)
      (record { is_unique = t.is_unique; tracked = t.tracked; no_cleanup = t.no_cleanup })
      (record {
        unique_tunnels = o.unique_tunnels;
        owned = o.owned;
        no_task = o.no_task;
        is_empty = o.is_empty;
      })
      v

detach-IsSound :
    (e : Option Text) (p : ProxyState)
    → IsSound p
    → IsSound (record p { control = detach_cleanup e p.control })
detach-IsSound e p v =
    control-IsSound p _ (Counters.detach_cleanup-Counts e p.control)
      (Replies.detach_cleanup-IsTracked e p.control v.held.tracked)
      (Tunnels.detach_cleanup-IsOwned e p.control v.held.owned) v

handle_message-IsSound : (m : Message) (p : ProxyState) → IsSound p → IsSound (handle_message m p).0
unfolding handle_message
handle_message-IsSound (open_tunnel_rsp none) p v = v
handle_message-IsSound (open_tunnel_rsp (some (id, r))) p v =
    control-IsSound p _ (Counters.handle_open_rsp-Counts id r p.control)
      (Replies.handle_open_rsp-IsTracked id r p.control v.held.tracked)
      (Tunnels.handle_open_rsp-IsOwned id r p.control v.held.owned) v
handle_message-IsSound (close_tunnel_rsp id) p v =
    control-IsSound p _ (Counters.handle_close_rsp-Counts id p.control)
      (Replies.handle_close_rsp-IsTracked id p.control v.held.tracked)
      (Tunnels.handle_close_rsp-IsOwned id p.control v.held.owned) v
handle_message-IsSound (proxy_conn_req r) p v = record {
  held = Held.handle_proxy_req-IsHeld r p v.held;
  balanced =
      Balance.handle_proxy_req-IsBalanced r p (IsOwned-IsMapped p.control v.held.owned) v.balanced;
}
handle_message-IsSound (datagram_channel_close none) p v = v
handle_message-IsSound (datagram_channel_close (some key)) p v =
    apart-IsSound p p.control.liveness (close_channel key p.control.datagrams) v
handle_message-IsSound close_control_channel_rsp p v = v
handle_message-IsSound (heartbeat h) p v =
    option_rule (λ (x : ProxyState × Next). IsSound x.0) (handle_heartbeat h p.control.liveness) _ _
      (λ _. v) (λ l _. apart-IsSound p l p.control.datagrams v)
handle_message-IsSound other_message p v = v

ended-IsSound :
    (n : Next) (p : ProxyState)
    → IsSound p
    → IsSound
        (elim n [ read_on ↦ p | stop_with e ↦ record p { control = detach_cleanup e p.control } ])
ended-IsSound read_on p v = v
ended-IsSound (stop_with e) p v = detach-IsSound e p v

receive-IsSound : (m : Message) (p : ProxyState) → IsSound p → IsSound (receive m p)
unfolding receive
receive-IsSound m p v =
    if_rule IsSound p.control.is_closed p _ (λ _. v)
      (λ _.
        ended-IsSound (handle_message m p).1 (handle_message m p).0 (handle_message-IsSound m p v))

pub act-IsSound : (a : Action) (p : ProxyState) → IsSound p → IsSound (act a p)
unfolding act
act-IsSound (receiving m) p v = receive-IsSound m p v
act-IsSound (failing_with e) p v = detach-IsSound e p v
act-IsSound cleaning p v =
    control-IsSound p _ (Counters.run_cleanup-Counts p.control)
      (Replies.run_cleanup-IsTracked p.control v.held.tracked)
      (Tunnels.run_cleanup-IsOwned p.control v.held.owned) v
act-IsSound (withdrawing id chan) p v =
    control-IsSound p _ (Counters.withdraw-Counts id chan p.control)
      (Replies.withdraw-IsTracked id chan p.control v.held.tracked)
      (Tunnels.withdraw-IsOwned id chan p.control v.held.owned) v
act-IsSound closing p v =
    control-IsSound p _ (Counters.begin_close-Counts p.control)
      (Replies.begin_close-IsTracked p.control v.held.tracked)
      (Tunnels.begin_close-IsOwned p.control v.held.owned) v
act-IsSound (closing_tunnel ref) p v =
    control-IsSound p _ (Counters.begin_close_tunnel-Counts ref p.control)
      (Replies.begin_close_tunnel-IsTracked ref p.control v.held.tracked)
      (Tunnels.begin_close_tunnel-IsOwned ref p.control v.held.owned) v
act-IsSound beating p v = apart-IsSound p (send_heartbeat p.control.liveness) p.control.datagrams v
act-IsSound (inserting_channel key tunnel backed) p v =
    apart-IsSound p p.control.liveness
      (insert_channel p.control.is_closed key tunnel backed p.control.datagrams).0 v
act-IsSound (failing_channel is_rejected key n) p v =
    apart-IsSound p p.control.liveness (fail_channel is_rejected key n p.control.datagrams) v
act-IsSound (accepting_channel key n) p v =
    apart-IsSound p p.control.liveness (accept_channel key n p.control.datagrams) v
act-IsSound (unregistering key n) p v =
    apart-IsSound p p.control.liveness (unregister key n p.control.datagrams) v
act-IsSound taking_request p v = record {
  held = Held.take_request-IsHeld p v.held;
  balanced = Balance.take_request-IsBalanced p v.balanced;
}
act-IsSound (finishing_request i failed) p v = record {
  held = Held.finish_request-IsHeld i failed p v.held;
  balanced = Balance.finish_request-IsBalanced i failed p v.balanced;
}
act-IsSound taking_response p v = record {
  held = Held.take_response-IsHeld p v.held;
  balanced = Balance.take_response-IsBalanced p v.balanced;
}
act-IsSound (writing_response ok) p v = record {
  held = Held.write_response-IsHeld ok p v.held;
  balanced = Balance.write_response-IsBalanced ok p v.balanced;
}

module _ {runes : Runes} {fips : TunnelProperties → Bool} where
  pub Step-IsSound : {p q : ProxyState} → Step runes fips p q → IsSound p → IsSound q
  Step-IsSound (acts a p) v = act-IsSound a p v
  Step-IsSound (requests id props p fresh) v =
      control-IsSound p _ (Counters.request_tunnel-Counts runes fips id props p.control)
        (Replies.request_tunnel-IsTracked runes fips id props p.control fresh v.held.tracked)
        (Tunnels.request_tunnel-IsOwned runes fips id props p.control v.held.owned) v
