-- ===== src/Control/Messages.antt =====
-- client.go: `handleMessage` and `readLoop`, and all steps of a control channel as one relation.
use rstream_go.Base.{ℕ, Bool, Option, none, some, ◌≡◌, if◌then◌else◌, Text, codes, lookup}
use rstream_go.Cors.{Runes}
use rstream_go.Tunnel.{TunnelProperties}
use rstream_go.Control.{
  Control, detach_cleanup, run_cleanup, request_tunnel, withdraw, OpenRsp, handle_open_rsp,
  handle_close_rsp, begin_close, begin_close_tunnel,
}
use rstream_go.Control.Heartbeats.{Heartbeat, send_heartbeat, handle_heartbeat}
use rstream_go.Control.Channels.{
  close_channel, insert_channel, fail_channel, accept_channel, unregister,
}
use rstream_go.Control.Proxy.{
  ProxyState, ProxyReq, handle_proxy_req, take_request, finish_request, take_response,
  write_response,
}

-- The payload of a `pb.Message`; `none` is a nil one. A stream's identifier that does not parse is `none`.
pub data Message : Type 0 where
  open_tunnel_rsp : Option (Text × OpenRsp) → Message
  close_tunnel_rsp : Text → Message
  proxy_conn_req : Option ProxyReq → Message
  datagram_channel_close : Option Text → Message
  close_control_channel_rsp : Message
  heartbeat : Option Heartbeat → Message
  other_message : Message

-- How the reader goes on.
pub data Next : Type 0 where
  read_on : Next
  stop_with : Option Text → Next

abbrev failing : Text → Next
failing e = stop_with (some e)

-- `handleMessage`
unfoldable pub handle_message : Message → ProxyState → ProxyState × Next
unfolding handle_open_rsp handle_close_rsp handle_proxy_req close_channel handle_heartbeat
handle_message (open_tunnel_rsp none) p = (p, failing (codes "received empty OpenTunnelRsp"))
handle_message (open_tunnel_rsp (some (id, rsp))) p =
    (record p { control = handle_open_rsp id rsp p.control }, read_on)
handle_message (close_tunnel_rsp id) p =
    (record p { control = handle_close_rsp id p.control }, read_on)
handle_message (proxy_conn_req r) p =
    let (p', ok) = handle_proxy_req r p in
    (p', if ok then read_on else failing (codes "proxy connection request"))
handle_message (datagram_channel_close none) p = (p, read_on)
handle_message (datagram_channel_close (some key)) p = (
  record p { control = record p.control { datagrams = close_channel key p.control.datagrams } },
  read_on,
)
handle_message close_control_channel_rsp p = (p, stop_with none)
handle_message (heartbeat h) p = elim (handle_heartbeat h p.control.liveness) [
  | none ↦ (p, failing (codes "heartbeat"))
  | some l ↦ (record p { control = record p.control { liveness = l } }, read_on)
]
handle_message other_message p = (p, read_on)

-- One round of `readLoop` with the end that follows an error: `onError` detaches the cleanup.
unfoldable pub receive : Message → ProxyState → ProxyState
unfolding handle_message detach_cleanup
receive m p =
    let (p', next) = handle_message m p in
    let ended : ProxyState = elim next [
      | read_on ↦ p'
      | stop_with e ↦ record p' { control = detach_cleanup e p'.control }
    ] in
    if p.control.is_closed then p else ended

-- The steps other than a new request for a tunnel.
pub data Action : Type 0 where
  receiving : Message → Action
  failing_with : Option Text → Action
  cleaning : Action
  withdrawing : Text → ℕ → Action
  closing : Action
  closing_tunnel : ℕ → Action
  beating : Action
  inserting_channel : Text → Text → Bool → Action
  failing_channel : Bool → Text → ℕ → Action
  accepting_channel : Text → ℕ → Action
  unregistering : Text → ℕ → Action
  taking_request : Action
  finishing_request : ℕ → Bool → Action
  taking_response : Action
  writing_response : Bool → Action

abbrev on_control : (Control → Control) → ProxyState → ProxyState
on_control f p = record p { control = f p.control }

unfoldable pub act : Action → ProxyState → ProxyState
unfolding receive detach_cleanup run_cleanup withdraw begin_close begin_close_tunnel send_heartbeat
    insert_channel fail_channel accept_channel unregister take_request finish_request take_response
    write_response
act (receiving m) p = receive m p
act (failing_with e) p = on_control (detach_cleanup e) p
act cleaning p = on_control run_cleanup p
act (withdrawing id chan) p = on_control (withdraw id chan) p
act closing p = on_control (λ c. (begin_close c).0) p
act (closing_tunnel ref) p = on_control (begin_close_tunnel ref) p
act beating p = on_control (λ c. record c { liveness = send_heartbeat c.liveness }) p
act (inserting_channel key tunnel backed) p =
    on_control
      (λ c. record c { datagrams = (insert_channel c.is_closed key tunnel backed c.datagrams).0 }) p
act (failing_channel is_rejected key n) p =
    on_control (λ c. record c { datagrams = fail_channel is_rejected key n c.datagrams }) p
act (accepting_channel key n) p =
    on_control (λ c. record c { datagrams = accept_channel key n c.datagrams }) p
act (unregistering key n) p =
    on_control (λ c. record c { datagrams = unregister key n c.datagrams }) p
act taking_request p = take_request p
act (finishing_request i failed) p = finish_request i failed p
act taking_response p = take_response p
act (writing_response ok) p = write_response ok p

-- A step: an action, or a request under an identifier that is not in use, as `uuid.New` makes it.
pub data Step (runes : Runes) (fips : TunnelProperties → Bool)
    : ProxyState → ProxyState → Type 0 where
  acts : (a : Action) (p : ProxyState) → Step runes fips p (act a p)
  requests :
      (id : Text) (props : TunnelProperties) (p : ProxyState)
      → lookup id p.control.pending ≡ none
      → Step runes fips p (record p { control = (request_tunnel runes fips id props p.control).0 })

pub data Reach (runes : Runes) (fips : TunnelProperties → Bool) (s : ProxyState)
    : ProxyState → Type 0 where
  here : Reach runes fips s s
  next : {t u : ProxyState} → Reach runes fips s t → Step runes fips t u → Reach runes fips s u
