-- ===== src/Control/Proxy/Limits.antt =====
-- client.go: the queues of the proxy requests keep to their limits.
use rstream_go.Base.{
  ℕ, zero, suc, ◌≤◌, ◌≡◌, ◌⊎◌, refl, inl, arith, Bool, true, false, not, ◌||◌, Option, none, some,
  List, [], ◌∷◌, length, length-append, get_elem?, is_nil, is_some, ltb, if_rule, option_rule,
  list_rule, trim_space, lookup, ap,
}
use rstream_go.Cors.{Runes}
use rstream_go.Tunnel.{TunnelProperties}
use rstream_go.Control.{Control, detach_cleanup}
use rstream_go.Control.Heartbeats.{handle_heartbeat}
use rstream_go.Control.Proxy.{
  Item, Response, ProxyState, start_runtime, reject, enqueue, ProxyReq, bad_redirect,
  handle_proxy_req, take_request, remove_at, finish_request, take_response, write_response, is_done,
}
use rstream_go.Control.Messages.{
  Message, open_tunnel_rsp, close_tunnel_rsp, proxy_conn_req, datagram_channel_close,
  close_control_channel_rsp, heartbeat, other_message, Next, read_on, stop_with, handle_message,
  receive, Action, receiving, failing_with, cleaning, withdrawing, closing, closing_tunnel, beating,
  inserting_channel, failing_channel, accepting_channel, unregistering, taking_request,
  finishing_request, taking_response, writing_response, act, acts, requests, Reach, here, next,
}
use rstream_go.Control.Connect.{connected}

record IsLimited (p : ProxyState) : Type 0 where
  queue : length p.requests ≤ p.queue_limit
  workers : length p.in_flight ≤ p.workers
  outbox : length p.responses ≤ p.response_limit
  configured : p.worker_limit ≡ 0
  limits :
      ((p.is_started ≡ false) × (p.workers ≡ 0) × (p.queue_limit ≡ 0) × (p.response_limit ≡ 0))
      ⊎ ((p.is_started ≡ true)
          × (p.workers ≡ 64)
          × (p.queue_limit ≡ 256)
          × (p.response_limit ≡ 256))

control-IsLimited :
    (p : ProxyState) (d : Control) → IsLimited p → IsLimited (record p { control = d })
control-IsLimited p d v = record {
  queue = v.queue;
  workers = v.workers;
  outbox = v.outbox;
  configured = v.configured;
  limits = v.limits;
}

reject-IsLimited : (i : Item) (p : ProxyState) → IsLimited p → IsLimited (reject i p).0
unfolding reject
reject-IsLimited i p v =
    let r : Response = record { item = i; is_failed = true } in
    if_rule (λ (x : ProxyState × Bool). IsLimited x.0) (ltb (length p.responses) p.response_limit) _
      _
      (λ h. record {
        queue = v.queue;
        workers = v.workers;
        outbox = ground (arith, h, length-append p.responses (r ∷ []));
        configured = v.configured;
        limits = v.limits;
      })
      (λ _. v)

enqueue-IsLimited : (i : Item) (p : ProxyState) → IsLimited p → IsLimited (enqueue i p).0
unfolding enqueue
enqueue-IsLimited i p v =
    if_rule (λ (x : ProxyState × Bool). IsLimited x.0) (ltb (length p.requests) p.queue_limit) _ _
      (λ h. record {
        queue = ground (arith, h, length-append p.requests (i ∷ []));
        workers = v.workers;
        outbox = v.outbox;
        configured = v.configured;
        limits = v.limits;
      })
      (λ _. reject-IsLimited i p v)

start_runtime-IsLimited : (p : ProxyState) → IsLimited p → IsLimited (start_runtime p)
unfolding start_runtime
start_runtime-IsLimited p v =
    if_rule IsLimited p.is_started p _ (λ _. v)
      (λ o. record {
        queue = omega arith;
        workers = omega (arith, v.workers);
        outbox = omega arith;
        configured = v.configured;
        limits = ground (arith, o, v.configured, v.limits);
      })

handle_proxy_req-IsLimited :
    (r : Option ProxyReq) (p : ProxyState) → IsLimited p → IsLimited (handle_proxy_req r p).0
unfolding handle_proxy_req
handle_proxy_req-IsLimited none p v = v
handle_proxy_req-IsLimited (some r) p v =
    let P = λ (x : ProxyState × Bool). IsLimited x.0 in
    let s = start_runtime p in
    let w = start_runtime-IsLimited p v in
    if_rule P (is_nil (trim_space r.stream)) _ _ (λ _. v)
      (λ _.
        option_rule P (lookup r.tunnel_id s.control.tunnels) _ _
          (λ _. reject-IsLimited (record { stream = r.stream; tunnel = none }) s w)
          (λ ref e.
            let i : Item = record { stream = r.stream; tunnel = some ref } in
            if_rule P (bad_redirect r) _ _ (λ _. reject-IsLimited i s w)
              (λ _. enqueue-IsLimited i s w)))

take_request-IsLimited : (p : ProxyState) → IsLimited p → IsLimited (take_request p)
unfolding take_request
take_request-IsLimited p v =
    list_rule IsLimited p.requests p _ (λ _. v)
      (λ i is e.
        if_rule IsLimited (is_done p || not (ltb (length p.in_flight) p.workers)) p _ (λ _. v)
          (λ h. record {
            queue = omega (arith, v.queue, ap length e);
            workers = ground (arith, h);
            outbox = v.outbox;
            configured = v.configured;
            limits = v.limits;
          }))

length-remove_at : (i : ℕ) (is : List Item) → length (remove_at i is) ≤ length is
unfolding remove_at
length-remove_at i [] = omega arith
length-remove_at zero (x ∷ is) = omega arith
length-remove_at (suc i) (x ∷ is) = omega (arith, length-remove_at i is)

finish_request-IsLimited :
    (i : ℕ) (failed : Bool) (p : ProxyState) → IsLimited p → IsLimited (finish_request i failed p)
unfolding finish_request
finish_request-IsLimited i failed p v =
    option_rule IsLimited (get_elem? p.in_flight i) p _ (λ _. v)
      (λ item e.
        let fewer = length-remove_at i p.in_flight in
        if_rule IsLimited (is_done p) _ _
          (λ _. record {
            queue = v.queue;
            workers = omega (arith, v.workers, fewer);
            outbox = v.outbox;
            configured = v.configured;
            limits = v.limits;
          })
          (λ _.
            let r : Response = record { item = item; is_failed = failed } in
            if_rule IsLimited (ltb (length p.responses) p.response_limit) _ p
              (λ h. record {
                queue = v.queue;
                workers = omega (arith, v.workers, fewer);
                outbox = ground (arith, h, length-append p.responses (r ∷ []));
                configured = v.configured;
                limits = v.limits;
              })
              (λ _. v)))

take_response-IsLimited : (p : ProxyState) → IsLimited p → IsLimited (take_response p)
unfolding take_response
take_response-IsLimited p v =
    list_rule IsLimited p.responses p _ (λ _. v)
      (λ r rs e.
        if_rule IsLimited (is_done p || is_some p.writing) p _ (λ _. v)
          (λ _. record {
            queue = v.queue;
            workers = v.workers;
            outbox = omega (arith, v.outbox, ap length e);
            configured = v.configured;
            limits = v.limits;
          }))

write_response-IsLimited :
    (ok : Bool) (p : ProxyState) → IsLimited p → IsLimited (write_response ok p)
unfolding write_response
write_response-IsLimited ok p v =
    option_rule IsLimited p.writing p _ (λ _. v)
      (λ r e.
        if_rule IsLimited ok _ _
          (λ _. record {
            queue = v.queue;
            workers = v.workers;
            outbox = v.outbox;
            configured = v.configured;
            limits = v.limits;
          })
          (λ _. record {
            queue = v.queue;
            workers = v.workers;
            outbox = v.outbox;
            configured = v.configured;
            limits = v.limits;
          }))

handle_message-IsLimited :
    (m : Message) (p : ProxyState) → IsLimited p → IsLimited (handle_message m p).0
unfolding handle_message
handle_message-IsLimited (open_tunnel_rsp none) p v = v
handle_message-IsLimited (open_tunnel_rsp (some (id, r))) p v = control-IsLimited p _ v
handle_message-IsLimited (close_tunnel_rsp id) p v = control-IsLimited p _ v
handle_message-IsLimited (proxy_conn_req r) p v = handle_proxy_req-IsLimited r p v
handle_message-IsLimited (datagram_channel_close none) p v = v
handle_message-IsLimited (datagram_channel_close (some key)) p v = control-IsLimited p _ v
handle_message-IsLimited close_control_channel_rsp p v = v
handle_message-IsLimited (heartbeat h) p v =
    option_rule (λ (x : ProxyState × Next). IsLimited x.0) (handle_heartbeat h p.control.liveness) _
      _ (λ _. v) (λ l _. control-IsLimited p (record p.control { liveness = l }) v)
handle_message-IsLimited other_message p v = v

ended-IsLimited :
    (n : Next) (p : ProxyState)
    → IsLimited p
    → IsLimited
        (elim n [ read_on ↦ p | stop_with e ↦ record p { control = detach_cleanup e p.control } ])
ended-IsLimited read_on p v = v
ended-IsLimited (stop_with e) p v = control-IsLimited p _ v

act-IsLimited : (a : Action) (p : ProxyState) → IsLimited p → IsLimited (act a p)
unfolding act receive
act-IsLimited (receiving m) p v =
    if_rule IsLimited p.control.is_closed p _ (λ _. v)
      (λ _.
        ended-IsLimited (handle_message m p).1 (handle_message m p).0
          (handle_message-IsLimited m p v))
act-IsLimited (failing_with e) p v = control-IsLimited p _ v
act-IsLimited cleaning p v = control-IsLimited p _ v
act-IsLimited (withdrawing id chan) p v = control-IsLimited p _ v
act-IsLimited closing p v = control-IsLimited p _ v
act-IsLimited (closing_tunnel ref) p v = control-IsLimited p _ v
act-IsLimited beating p v = control-IsLimited p _ v
act-IsLimited (inserting_channel key tunnel backed) p v = control-IsLimited p _ v
act-IsLimited (failing_channel is_rejected key n) p v = control-IsLimited p _ v
act-IsLimited (accepting_channel key n) p v = control-IsLimited p _ v
act-IsLimited (unregistering key n) p v = control-IsLimited p _ v
act-IsLimited taking_request p v = take_request-IsLimited p v
act-IsLimited (finishing_request i failed) p v = finish_request-IsLimited i failed p v
act-IsLimited taking_response p v = take_response-IsLimited p v
act-IsLimited (writing_response ok) p v = write_response-IsLimited ok p v

module _ {runes : Runes} {fips : TunnelProperties → Bool} where
  Reach-IsLimited : {p q : ProxyState} → Reach runes fips p q → IsLimited p → IsLimited q
  Reach-IsLimited here v = v
  Reach-IsLimited (next r (acts a p)) v = act-IsLimited a p (Reach-IsLimited r v)
  Reach-IsLimited (next r (requests id props p fresh)) v =
      control-IsLimited p _ (Reach-IsLimited r v)

  -- Whatever a control channel has done since it was connected, at most 256 proxy requests wait, at most 64 are
  -- dialled at once, and at most 256 responses wait to be written.
  pub queues_bounded :
      (provider : Bool) (timeout : ℕ) {p : ProxyState}
      → Reach runes fips (connected provider timeout) p
      → (length p.requests ≤ 256) × (length p.in_flight ≤ 64) × (length p.responses ≤ 256)
  queues_bounded provider timeout {p = p} r =
      let v = Reach-IsLimited r (record {
        queue = omega arith;
        workers = omega arith;
        outbox = omega arith;
        configured = refl;
        limits = inl (refl, refl, refl, refl);
      }) in
      (
        ground (arith, v.queue, v.limits),
        ground (arith, v.workers, v.limits),
        ground (arith, v.outbox, v.limits),
      )
