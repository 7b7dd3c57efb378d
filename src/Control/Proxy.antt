-- ===== src/Control/Proxy.antt =====
-- client.go: the requests for proxy connections. The reader queues them, workers dial, one loop writes the
-- responses, and a tunnel counts those that it waits for. An item is a request with the tunnel that
-- counts it; its other fields are what the worker dials with.
pub mod Balance
pub mod Held
pub mod Counters
pub mod Limits
use rstream_go.Base.{
  ℕ, zero, suc, ◌+◌, ◌-◌, Bool, true, false, not, ◌&&◌, ◌||◌, Option, none, some, List, [], ◌∷◌,
  ◌++◌, if◌then◌else◌, ◌==◌, length, get_elem?, set, is_nil, is_some, ltb, Text, codes, trim_space,
  lookup,
}
use rstream_go.Control.{Tunnel, Objects, Control, detach_cleanup}

pub record Item : Type 0 where
  pub stream : Text
  pub tunnel : Option ℕ

-- `proxyConnectionResponse`
pub record Response : Type 0 where
  pub item : Item
  pub is_failed : Bool

-- The control channel with the state of these loops. `asked` lists the requests that were taken in,
-- `written` the responses sent, and `abandoned` those given up when the channel ended. `workers` is the number of
-- worker goroutines, `queue_limit` and `response_limit` are the capacities of the two channels.
pub record ProxyState : Type 0 where
  pub control : Control
  pub is_started : Bool
  pub worker_limit : ℕ
  pub workers : ℕ
  pub queue_limit : ℕ
  pub response_limit : ℕ
  pub requests : List Item
  pub in_flight : List Item
  pub responses : List Response
  pub writing : Option Response
  pub asked : List Item
  pub written : List Response
  pub abandoned : List Item

-- `addProxyResponseLocked` and `completeProxyResponseLocked`, on the tunnel's counter.
unfoldable pub add_response : Option ℕ → Objects → Objects
add_response none o = o
add_response (some ref) o = elim (get_elem? o.store ref) [
  | none ↦ o
  | some t ↦ record o { store = set o.store ref (record t { proxy_pending = t.proxy_pending + 1 }) }
]

unfoldable pub complete_response : Option ℕ → Objects → Objects
complete_response none o = o
complete_response (some ref) o = elim (get_elem? o.store ref) [
  | none ↦ o
  | some t ↦
      if t.proxy_pending == 0
      then o
      else record o { store = set o.store ref (record t { proxy_pending = t.proxy_pending - 1 }) }
]

-- The lifecycle's context is cancelled: the cleanup has run.
abbrev pub is_done : ProxyState → Bool
is_done p = p.control.is_closed && not (is_some p.control.cleanup)

abbrev or_default : ℕ → ℕ → ℕ
or_default n d = if n == 0 then d else n

-- `startProxyRuntimeLocked`: it makes the two channels and starts the workers.
unfoldable pub start_runtime : ProxyState → ProxyState
start_runtime p = if p.is_started then p else record p {
  is_started = true;
  workers = p.workers + or_default p.worker_limit 64;
  requests = [];
  responses = [];
  queue_limit = or_default p.queue_limit 256;
  response_limit = or_default p.response_limit 256;
}

abbrev pub count_up : Option ℕ → ProxyState → Control
count_up tunnel p = record p.control { objects = add_response tunnel p.control.objects }

-- `rejectProxyConnReqLocked`, and whether it succeeded.
unfoldable pub reject : Item → ProxyState → ProxyState × Bool
unfolding add_response
reject item p =
    if ltb (length p.responses) p.response_limit
    then (
      record p {
        control = count_up item.tunnel p;
        responses = p.responses ++ (record { item = item; is_failed = true } ∷ []);
        asked = item ∷ p.asked;
      },
      true,
    )
    else (p, false)

-- The end of `handleProxyConnReq`.
unfoldable pub enqueue : Item → ProxyState → ProxyState × Bool
unfolding reject add_response
enqueue item p =
    if ltb (length p.requests) p.queue_limit
    then (
      record p {
        control = count_up item.tunnel p;
        requests = p.requests ++ (item ∷ []);
        asked = item ∷ p.asked;
      },
      true,
    )
    else reject item p

-- `pb.ProxyConnReq`
pub record ProxyReq : Type 0 where
  pub stream : Text
  pub tunnel_id : Text
  pub endpoint : Option Text
  pub secret : Option Text

abbrev pub is_blank : Option Text → Bool
is_blank none = true
is_blank (some s) = is_nil (trim_space s)

-- A redirect without an endpoint or a credential.
abbrev pub bad_redirect : ProxyReq → Bool
bad_redirect r = is_some r.endpoint && (is_blank r.endpoint || is_blank r.secret)

-- `handleProxyConnReq`; `false` is an error, which ends the channel.
unfoldable pub handle_proxy_req : Option ProxyReq → ProxyState → ProxyState × Bool
unfolding start_runtime enqueue reject
handle_proxy_req none p = (p, false)
handle_proxy_req (some r) p =
    let p' = start_runtime p in
    if is_nil (trim_space r.stream)
    then (p, false)
    else elim (lookup r.tunnel_id p'.control.tunnels) [
      | none ↦ reject (record { stream = r.stream; tunnel = none }) p'
      | some ref ↦
          if bad_redirect r
          then reject (record { stream = r.stream; tunnel = some ref }) p'
          else enqueue (record { stream = r.stream; tunnel = some ref }) p'
    ]

-- A goroutine of `proxyConnectionWorkerLoop` takes the next request. There is one that waits for a request when
-- fewer items are in flight than there are workers, since each holds one item while it processes it.
unfoldable pub take_request : ProxyState → ProxyState
take_request p = elim p.requests [
  | [] ↦ p
  | item ∷ rest ↦
      if is_done p || not (ltb (length p.in_flight) p.workers)
      then p
      else record p { requests = rest; in_flight = item ∷ p.in_flight }
]

unfoldable pub remove_at : ℕ → List Item → List Item
remove_at i [] = []
remove_at zero (x ∷ xs) = xs
remove_at (suc i) (x ∷ xs) = x ∷ remove_at i xs

-- The worker that holds the `i`-th item has processed it: `queueProxyConnRsp`, which waits while the
-- queue of responses is full.
unfoldable pub finish_request : ℕ → Bool → ProxyState → ProxyState
unfolding remove_at
finish_request i failed p = elim (get_elem? p.in_flight i) [
  | none ↦ p
  | some item ↦
      if is_done p
      then record p { in_flight = remove_at i p.in_flight; abandoned = item ∷ p.abandoned }
      else if ltb (length p.responses) p.response_limit
      then record p {
        in_flight = remove_at i p.in_flight;
        responses = p.responses ++ (record { item = item; is_failed = failed } ∷ []);
      }
      else p
]

-- `proxyConnectionResponseLoop` takes a response.
unfoldable pub take_response : ProxyState → ProxyState
take_response p = elim p.responses [
  | [] ↦ p
  | r ∷ rest ↦
      if is_done p || is_some p.writing then p else record p { responses = rest; writing = some r }
]

-- Its write has ended.
unfoldable pub write_response : Bool → ProxyState → ProxyState
unfolding complete_response detach_cleanup
write_response succeeded p = elim p.writing [
  | none ↦ p
  | some r ↦
      if succeeded
      then record p {
        control = record p.control { objects = complete_response r.item.tunnel p.control.objects };
        writing = none;
        written = r ∷ p.written;
      }
      else record p {
        control = detach_cleanup (some (codes "failed to send ProxyConnRsp")) p.control;
        writing = none;
        abandoned = r.item ∷ p.abandoned;
      }
]
