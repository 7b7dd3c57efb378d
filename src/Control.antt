-- ===== src/Control.antt =====
-- client.go and tunnel.go: the control channel, `controlChannelImpl`, with the tunnels that it owns. A tunnel is
-- an object that the map of the channel and the caller share: it stands in a store under its number.
-- Response channels and connections are numbers too. What `controlChannelCleanup.run` does happens
-- behind the critical section that detached it, so that other steps may come between the two.
pub mod Heartbeats
pub mod Channels
pub mod Messages
pub mod Connect
pub mod Soundness
pub mod Runs
pub mod Replies
pub mod Tunnels
pub mod Proxy
pub mod Draining
pub mod Tests
use rstream_go.Base.{
  ℕ, suc, ◌+◌, Bool, true, false, not, ◌&&◌, ◌||◌, Option, none, some, List, [], ◌∷◌, ◌++◌, map,
  if◌then◌else◌, ◌==◌, length, get_elem?, is_nil, is_some, equal, set, Text, codes, trim_space,
  Dict, lookup, insert, delete,
}
use rstream_go.Cors.{Runes}
use rstream_go.Tunnel.{
  TunnelProperties, TunnelType, datagram, normalize_create, Normal, accepted, refused,
  is_unpublished,
}
use rstream_go.Control.Channels.{Datagrams, detach_tunnel, detach_all}
use rstream_go.Control.Heartbeats.{Liveness}

-- `bytestreamTunnelImpl`; `conns` is the queue of its channel, and `proxyDrained` is there when
-- `proxy_pending` is not 0.
pub record Tunnel : Type 0 where
  pub id : Text
  pub props : TunnelProperties
  pub proxy_pending : ℕ
  pub is_closing : Bool
  pub is_closed : Bool
  pub error : Option Text
  pub conns : List ℕ
  pub is_cancelled : Bool

-- The store of the tunnels, and the connections that were closed with them.
pub record Objects : Type 0 where
  pub store : List Tunnel
  pub closed_conns : List ℕ

-- What a caller of `CreateTunnel` gets: a tunnel as a stream, over QUIC datagrams or over frames, an error,
-- or the close of its response channel.
pub data Reply : Type 0 where
  opened opened_datagram opened_framed : ℕ → Reply
  failed : Text → Reply
  hung_up : Reply

-- `controlChannelCleanup`
pub record Cleanup : Type 0 where
  pub error : Option Text
  pub preserve_streams : Bool
  pub pending : List ℕ
  pub tunnels : List ℕ

pub record Control : Type 0 where
  pub liveness : Liveness
  pub pending : Dict ℕ
  pub tunnels : Dict ℕ
  pub objects : Objects
  pub has_provider : Bool
  pub datagrams : Datagrams
  pub is_closing : Bool
  pub is_closed : Bool
  pub error : Option Text
  pub cleanup : Option Cleanup
  pub next_chan : ℕ
  -- The answers given, and the requests that their callers have left.
  pub replies : List (ℕ × Reply)
  pub withdrawn : List ℕ

-- `tunnelAllowsQUICDatagrams`
abbrev pub allows_datagrams : TunnelProperties → Bool
allows_datagrams p = elim p.datagram_guaranteed_delivery [
  | none ↦ true
  | some guaranteed ↦ not guaranteed
]

abbrev pub is_datagram : Option TunnelType → Bool
is_datagram none = false
is_datagram (some t) = equal t datagram

-- `onErrorLocked` with the run of its cleanup, and the connections that it closes.
unfoldable pub close_tunnel : Option Text → Tunnel → Tunnel × List ℕ
close_tunnel error t =
    if t.is_closed
    then (t, [])
    else (record t { is_closed = true; error = error; conns = []; is_cancelled = true }, t.conns)

unfoldable pub close_at : Option Text → ℕ → Objects → Objects
unfolding close_tunnel
close_at error ref o = elim (get_elem? o.store ref) [
  | none ↦ o
  | some t ↦ record {
    store = set o.store ref (close_tunnel error t).0;
    closed_conns = (close_tunnel error t).1 ++ o.closed_conns;
  }
]

unfoldable pub close_all : Option Text → List ℕ → Objects → Objects
close_all error [] o = o
close_all error (ref ∷ refs) o = close_all error refs (close_at error ref o)

abbrev pub entries : Dict ℕ → List ℕ
entries [] = []
entries ((_, n) ∷ m) = n ∷ entries m

-- `detachCleanupLocked`; `none` is no error.
unfoldable pub detach_cleanup : Option Text → Control → Control
detach_cleanup error c =
    let preserve = is_some error && not c.is_closing in
    if c.is_closed then c else record c {
      is_closed = true;
      error = error;
      cleanup = some (record {
        error = error;
        preserve_streams = preserve;
        pending = entries c.pending;
        tunnels = entries c.tunnels;
      });
      pending = [];
      tunnels = [];
      datagrams = detach_all preserve c.datagrams;
    }

-- The error that the tunnels get.
abbrev pub tunnel_error : Option Text → Option Text
tunnel_error none = none
tunnel_error (some e) = some (codes "control channel closed: " ++ e)

-- `controlChannelCleanup.run`, once.
unfoldable pub run_cleanup : Control → Control
unfolding close_all
run_cleanup c = elim c.cleanup [
  | none ↦ c
  | some k ↦ record c {
    cleanup = none;
    replies = map (λ chan. (chan, hung_up)) k.pending ++ c.replies;
    objects = close_all (tunnel_error k.error) k.tunnels c.objects;
  }
]

-- What the first part of `CreateTunnel` does: an error, or the number of the response channel and the
-- properties to send.
pub data Requested : Type 0 where
  denied : Requested
  sending : ℕ → TunnelProperties → Requested

-- `valid_fips` is `validateFIPSTunnelProperties`, `id` the new request's UUID.
unfoldable pub request_tunnel :
    Runes → (TunnelProperties → Bool) → Text → TunnelProperties → Control → Control × Requested
unfolding normalize_create
request_tunnel runes valid_fips id props c =
    if not (valid_fips props) || c.is_closed || c.is_closing
    then (c, denied)
    else elim (normalize_create runes props) [
      | refused _ ↦ (c, denied)
      | accepted props' ↦ (
        record c { pending = insert id c.next_chan c.pending; next_chan = c.next_chan + 1 },
        sending c.next_chan props',
      )
    ]

-- `delete(c.pendingTunnels, requestID)` where the entry is the caller's own: behind a failed write, and
-- where its context ends. Else the caller waits for the reply.
unfoldable pub withdraw : Text → ℕ → Control → Control
withdraw id chan c = elim (lookup id c.pending) [
  | none ↦ c
  | some chan' ↦
      if chan' == chan
      then record c { pending = delete id c.pending; withdrawn = chan ∷ c.withdrawn }
      else c
]

-- The payload of `OpenTunnelRsp`.
pub data OpenRsp : Type 0 where
  engine_error : Text → OpenRsp
  properties : TunnelProperties → OpenRsp
  unexpected : OpenRsp

abbrev pub new_tunnel : Text → TunnelProperties → Tunnel
new_tunnel id props = record {
  id = id;
  props = props;
  proxy_pending = 0;
  is_closing = false;
  is_closed = false;
  error = none;
  conns = [];
  is_cancelled = false;
}

-- A tunnel with this identifier enters the store and the map.
abbrev pub add_tunnel : Text → TunnelProperties → Control → Control
add_tunnel id props c = record c {
  objects = record c.objects { store = c.objects.store ++ (new_tunnel id props ∷ []) };
  tunnels = insert id (length c.objects.store) c.tunnels;
}

-- `openTunnelFromPropertiesLocked`
unfoldable pub open_from_properties : TunnelProperties → Control → Control × Reply
open_from_properties props c = elim props.id [
  | none ↦ (c, failed (codes "engine did not return a tunnel ID"))
  | some id ↦
      let ref = length c.objects.store in
      let c' = add_tunnel id props c in
      if is_nil (trim_space id)
      then (c, failed (codes "engine did not return a tunnel ID"))
      else if c.is_closed || c.is_closing
      then (c, failed (codes "control channel closed while opening tunnel"))
      else if is_some (lookup id c.tunnels)
      then (c, failed (codes "engine returned duplicate tunnel ID"))
      else if is_datagram props.type_of && c.has_provider && allows_datagrams props
      then (
        record c' {
          datagrams = record c.datagrams { listeners = insert id ref c.datagrams.listeners };
        },
        opened_datagram ref,
      )
      else if is_datagram props.type_of
      then (c', opened_framed ref)
      else (c', opened ref)
]

-- `openTunnelResultLocked`
unfoldable pub open_result : OpenRsp → Control → Control × Reply
unfolding open_from_properties
open_result (engine_error e) c = (c, failed e)
open_result (properties props) c = open_from_properties props c
open_result unexpected c = (c, failed (codes "unexpected OpenTunnelRsp payload"))

-- `handleOpenTunnelRsp`
unfoldable pub handle_open_rsp : Text → OpenRsp → Control → Control
unfolding open_result
handle_open_rsp id payload c = elim (lookup id c.pending) [
  | none ↦ c
  | some chan ↦
      let (c', reply) = open_result payload (record c { pending = delete id c.pending }) in
      record c' { replies = (chan, reply) ∷ c'.replies }
]

-- `handleCloseTunnelRsp` with the run of its cleanup.
unfoldable pub handle_close_rsp : Text → Control → Control
unfolding close_at
handle_close_rsp id c = elim (lookup id c.tunnels) [
  | none ↦ c
  | some ref ↦ record c {
    tunnels = delete id c.tunnels;
    objects = close_at none ref c.objects;
    datagrams = detach_tunnel id c.datagrams;
  }
]

-- The first critical section of `Close`, and whether it sends the request to close.
unfoldable pub begin_close : Control → Control × Bool
begin_close c =
    if c.is_closed then (c, false) else (record c { is_closing = true }, not c.is_closing)

-- The first critical section of `bytestreamTunnelImpl.Close`.
unfoldable pub begin_close_tunnel : ℕ → Control → Control
begin_close_tunnel ref c = elim (get_elem? c.objects.store ref) [
  | none ↦ c
  | some t ↦ if t.is_closed then c else record c {
    objects = record c.objects { store = set c.objects.store ref (record t { is_closing = true }) };
  }
]
