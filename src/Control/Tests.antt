-- ===== src/Control/Tests.antt =====
-- client.go and tunnel.go: runs on concrete input.
use rstream_go.Base.{
  length, ℕ, ◌+◌, ◌*◌, ◌/◌, ◌%◌, ◌≤◌, ◌≡◌, ◌⊎◌, refl, arith, Bool, true, false, Option, none, some,
  List, [], ◌∷◌, ltb, bit, Text, codes, lookup, get_elem?, set,
}
use rstream_go.Tunnel.{TunnelProperties}
use rstream_go.Tunnel.Tests.{plain, ssh}
use rstream_go.Control.{Control, properties, request_tunnel, run_cleanup, detach_cleanup}
use rstream_go.Control.Heartbeats.{
  Settings, Beat, sent, received, beats, sends, Rising, resolve_config, validate_liveness,
  send_heartbeat, handle_heartbeat, millisecond, second,
}
use rstream_go.Control.Connect
use rstream_go.Control.Connect.{ChannelRsp, opened, connect, connected, asked_liveness, accept_rsp}
use rstream_go.Control.Replies.{waiting, in_cleanup, replied, tally}
use rstream_go.Control.Tunnels.{open_at}
use rstream_go.Control.Proxy.{ProxyState, Item}
use rstream_go.Control.Proxy.Balance.{load, load_responses, unanswered, pending_at, of_tunnel}
use rstream_go.Control.Messages.{
  open_tunnel_rsp, proxy_conn_req, receiving, failing_with, act, Reach, here, next, acts, requests,
}
use rstream_go.Control.Runs
use rstream_go.Control.Proxy.Limits
use rstream_go.Control.Draining.{
  begins_dial, ends_dial, releases, detaches, closes_underlying, closes_conn, Op, apply, apply_all,
  fresh, open_conns, begin_dial, end_dial, release, detach, close_underlying, close_conn,
}
use rstream_go.Control.Draining.Safety

-- A tunnel is requested and opened, a proxy request for it comes in, and the connection breaks.
abbrev start : ProxyState
start = connected false 0

abbrev any_fips : TunnelProperties → Bool
any_fips _ = true

abbrev asked_state : ProxyState
asked_state = record start {
  control = (request_tunnel plain any_fips (codes "r") ssh start.control).0;
}

abbrev opened_state : ProxyState
opened_state =
    act
      (receiving
        (open_tunnel_rsp (some (codes "r", properties (record ssh { id = some (codes "t") })))))
      asked_state

abbrev proxied_state : ProxyState
proxied_state =
    act
      (receiving (
        proxy_conn_req (
          some (record {
            stream = codes "s";
            tunnel_id = codes "t";
            endpoint = none;
            secret = none;
          }))))
      opened_state

abbrev broken_state : ProxyState
broken_state = act (failing_with (some (codes "EOF"))) proxied_state

run : Reach plain any_fips start broken_state
run =
    next
      (next
        (next (next here (requests (codes "r") ssh start (unfold lookup in refl)))
          (acts _ asked_state))
        (acts _ opened_state))
      (acts _ proxied_state)

detach_closed : (e : Option Text) (c : Control) → (detach_cleanup e c).is_closed ≡ true
unfolding detach_cleanup
detach_closed e c = ground arith

broken_closed : broken_state.control.is_closed ≡ true
unfolding act
broken_closed = detach_closed (some (codes "EOF")) proxied_state.control

request_once_example :
    waiting 0 broken_state.control.pending
      + in_cleanup 0 broken_state.control.cleanup
      + replied 0 broken_state.control.replies
      + tally 0 broken_state.control.withdrawn
    ≡ bit (ltb 0 broken_state.control.next_chan)
request_once_example = Runs.request_once false 0 run 0

cleanup-finishes_example :
    (open_at 0 (run_cleanup broken_state.control).objects.store ≡ 0)
    × (replied 0 (run_cleanup broken_state.control).replies
          + tally 0 (run_cleanup broken_state.control).withdrawn
        ≡ bit (ltb 0 (run_cleanup broken_state.control).next_chan))
cleanup-finishes_example = Runs.cleanup-finishes false 0 broken_state run broken_closed 0

proxy_request_once_example :
    ((f : Item → ℕ)
      → load f broken_state.asked
        ≡ load_responses f broken_state.written + unanswered f broken_state)
    × ((n : ℕ)
        → pending_at n broken_state.control.objects.store ≡ unanswered (of_tunnel n) broken_state)
proxy_request_once_example = Runs.proxy_request_once false 0 run

queues_bounded_example :
    (length broken_state.requests ≤ 256)
    × (length broken_state.in_flight ≤ 64)
    × (length broken_state.responses ≤ 256)
queues_bounded_example = Limits.queues_bounded false 0 run

-- An engine that takes the interval and answers with 15 seconds.
abbrev echo : Option ℕ → Option ChannelRsp
echo none = some (opened (some none))
echo (some ms) = some (opened (some (some (record { interval_ms = ms; timeout_ms = 15000 }))))

echo_connects : connect none echo false ≡ some (connected false 15000000000)
unfolding connect resolve_config asked_liveness accept_rsp validate_liveness
echo_connects = refl

connect-liveness_example :
    (s : Settings) × (resolve_config none ≡ some s)
    × (asked_liveness s ≡ some (s.interval / millisecond))
    × (s.interval % millisecond ≡ 0)
    × (second ≤ s.interval)
    × (s.interval ≤ 300 * second)
    × (s.interval ≤ 15 * second)
    × (15 * second ≤ 900 * second)
    × (15 * second % millisecond ≡ 0)
connect-liveness_example =
    Connect.connect-liveness none echo false (connected false 15000000000) echo_connects
      (omega arith)

abbrev two_beats : List Beat
two_beats = sent ∷ sent ∷ received (record { sequence = 0; acknowledgement = 2 }) ∷ []

two_beats_run :
    beats two_beats (connected false 15000000000).control.liveness
    ≡ some (record { timeout = 15000000000; sequence = 2; acknowledgement = 2 })
unfolding beats send_heartbeat handle_heartbeat
two_beats_run = refl

connect-beats_example : (2 ≡ sends two_beats) × Rising 0 0 two_beats
connect-beats_example =
    Connect.connect-beats none echo false (connected false 15000000000) echo_connects (omega arith)
      two_beats (record { timeout = 15000000000; sequence = 2; acknowledgement = 2 }) (omega arith)
      two_beats_run

-- A connection is dialled, the transport is detached, and the connection is closed.
abbrev drained : List Op
drained =
    begins_dial ∷ ends_dial true ∷ detaches ∷ closes_conn 0 ∷ releases ∷ closes_underlying ∷ []

drain-safe_example :
    ((apply_all drained fresh).closes ≤ 1)
    × (((apply_all drained fresh).closes ≡ 0) ⊎ ((apply_all drained fresh).is_detached ≡ true))
    × (((apply_all drained fresh).closes ≡ 0)
        ⊎ ((apply_all drained fresh).is_closed ≡ true)
        ⊎ ((apply_all drained fresh).dialing + open_conns (apply_all drained fresh).conns ≡ 0))
drain-safe_example = Safety.drain-safe drained

drained_quiet :
    ((apply_all drained fresh).is_detached ≡ true)
    × ((apply_all drained fresh).dialing ≡ 0)
    × ((apply_all drained fresh).releasing ≡ 0)
    × ((apply_all drained fresh).due ≡ 0)
    × (open_conns (apply_all drained fresh).conns ≡ 0)
unfolding apply_all apply begin_dial end_dial release detach close_underlying close_conn get_elem?
    set
drained_quiet = (refl, refl, refl, refl, refl)

drain-closes_example : (apply_all drained fresh).closes ≡ 1
drain-closes_example =
    Safety.drain-closes drained drained_quiet.0 drained_quiet.1 drained_quiet.2 drained_quiet.3
      drained_quiet.4
