-- ===== src/Control/Proxy/Held.antt =====
-- client.go: the loops of the proxy connections keep the accounts of the control channel, and the steps
-- of the control channel keep the tunnels' counters.
use rstream_go.Base.{
  ℕ, ◌+◌, ◌-◌, ◌≤◌, Bool, Option, none, some, List, ◌≡◌, refl, arith, inl, inr, sym, ◌∙◌, ◌==◌,
  ==_iff, length, get_elem?, is_nil, ltb, bit, if_rule, option_rule, list_rule, Option-cases, Text,
  codes, trim_space, Dict, lookup, weight-delete, Unique,
}
use rstream_go.Control.{Tunnel, Objects, Control, detach_cleanup}
use rstream_go.Control.Replies.{IsTracked, waiting, detach_cleanup-IsTracked}
use rstream_go.Control.Tunnels.{IsOwned, open_at, open_at-set, detach_cleanup-IsOwned}
use rstream_go.Control.Proxy.{
  Item, ProxyState, add_response, complete_response, start_runtime, reject, enqueue, ProxyReq,
  bad_redirect, handle_proxy_req, take_request, finish_request, take_response, write_response,
  is_done, count_up,
}
use rstream_go.Control.Proxy.Balance.{IsMapped}

-- The accounts of the control channel.
pub record IsHeld (c : Control) : Type 0 where
  pub tracked : IsTracked c
  pub owned : IsOwned c

lookup-waiting : (k : Text) (m : Dict ℕ) (n : ℕ) → Unique m → lookup k m ≡ some n → 1 ≤ waiting n m
lookup-waiting k m n u h = ground (arith, h, weight-delete (λ v. bit (v == n)) k m u)

open_at-Stored :
    (n : ℕ) (store : List Tunnel)
    → 1 ≤ open_at n store
    → (t : Tunnel) × (get_elem? store n ≡ some t)
open_at-Stored n store h = elim (Option-cases (get_elem? store n)) [
  | inl e ↦ absurd (ground (arith, h, e))
  | inr (t, e) ↦ (t, e)
]

pub IsOwned-IsMapped : (c : Control) → IsOwned c → IsMapped c
IsOwned-IsMapped c v id ref h =
    open_at-Stored ref c.objects.store
      (omega (arith, v.owned ref, lookup-waiting id c.tunnels ref v.unique_tunnels h))

open_at-add_response :
    (n : ℕ) (tunnel : Option ℕ) (o : Objects)
    → open_at n (add_response tunnel o).store ≡ open_at n o.store
unfolding add_response
open_at-add_response n none o = refl
open_at-add_response n (some ref) o =
    option_rule (λ (x : Objects). open_at n x.store ≡ open_at n o.store) (get_elem? o.store ref) o _
      (λ _. refl)
      (λ t h. ground (
        arith,
        h,
        ==_iff ref n,
        open_at-set n ref o.store t (record t { proxy_pending = t.proxy_pending + 1 }) h,
      ))

open_at-complete_response :
    (n : ℕ) (tunnel : Option ℕ) (o : Objects)
    → open_at n (complete_response tunnel o).store ≡ open_at n o.store
unfolding complete_response
open_at-complete_response n none o = refl
open_at-complete_response n (some ref) o =
    option_rule (λ (x : Objects). open_at n x.store ≡ open_at n o.store) (get_elem? o.store ref) o _
      (λ _. refl)
      (λ t h. ground (
        arith,
        h,
        ==_iff ref n,
        open_at-set n ref o.store t (record t { proxy_pending = t.proxy_pending - 1 }) h,
      ))

-- New objects with the same open tunnels.
pub objects-IsHeld :
    (c : Control) (o : Objects)
    → ((n : ℕ) → open_at n o.store ≡ open_at n c.objects.store)
    → IsHeld c
    → IsHeld (record c { objects = o })
objects-IsHeld c o e h = record {
  tracked = record {
    is_unique = h.tracked.is_unique;
    tracked = h.tracked.tracked;
    no_cleanup = h.tracked.no_cleanup;
  };
  owned = record {
    unique_tunnels = h.owned.unique_tunnels;
    owned = λ n. h.owned.owned n ∙ sym (e n);
    no_task = h.owned.no_task;
    is_empty = h.owned.is_empty;
  };
}

pub detach_cleanup-IsHeld : (e : Option Text) (c : Control) → IsHeld c → IsHeld (detach_cleanup e c)
detach_cleanup-IsHeld e c h = record {
  tracked = detach_cleanup-IsTracked e c h.tracked;
  owned = detach_cleanup-IsOwned e c h.owned;
}

count_up-IsHeld :
    (tunnel : Option ℕ) (p : ProxyState) → IsHeld p.control → IsHeld (count_up tunnel p)
count_up-IsHeld tunnel p =
    objects-IsHeld p.control _ (λ n. open_at-add_response n tunnel p.control.objects)

reject-IsHeld : (i : Item) (p : ProxyState) → IsHeld p.control → IsHeld (reject i p).0.control
unfolding reject
reject-IsHeld i p h =
    if_rule (λ (x : ProxyState × Bool). IsHeld x.0.control)
      (ltb (length p.responses) p.response_limit) _ _ (λ _. count_up-IsHeld i.tunnel p h) (λ _. h)

enqueue-IsHeld : (i : Item) (p : ProxyState) → IsHeld p.control → IsHeld (enqueue i p).0.control
unfolding enqueue
enqueue-IsHeld i p h =
    if_rule (λ (x : ProxyState × Bool). IsHeld x.0.control) (ltb (length p.requests) p.queue_limit)
      _ _ (λ _. count_up-IsHeld i.tunnel p h) (λ _. reject-IsHeld i p h)

start_runtime-IsHeld : (p : ProxyState) → IsHeld p.control → IsHeld (start_runtime p).control
unfolding start_runtime
start_runtime-IsHeld p h =
    if_rule (λ (x : ProxyState). IsHeld x.control) p.is_started p _ (λ _. h) (λ _. h)

pub handle_proxy_req-IsHeld :
    (r : Option ProxyReq) (p : ProxyState)
    → IsHeld p.control
    → IsHeld (handle_proxy_req r p).0.control
unfolding handle_proxy_req
handle_proxy_req-IsHeld none p h = h
handle_proxy_req-IsHeld (some r) p h =
    let P = λ (x : ProxyState × Bool). IsHeld x.0.control in
    let s = start_runtime p in
    let h' = start_runtime-IsHeld p h in
    if_rule P (is_nil (trim_space r.stream)) _ _ (λ _. h)
      (λ _.
        option_rule P (lookup r.tunnel_id s.control.tunnels) _ _
          (λ _. reject-IsHeld (record { stream = r.stream; tunnel = none }) s h')
          (λ ref e.
            let i : Item = record { stream = r.stream; tunnel = some ref } in
            if_rule P (bad_redirect r) _ _ (λ _. reject-IsHeld i s h')
              (λ _. enqueue-IsHeld i s h')))

pub take_request-IsHeld : (p : ProxyState) → IsHeld p.control → IsHeld (take_request p).control
unfolding take_request
take_request-IsHeld p h =
    let P = λ (x : ProxyState). IsHeld x.control in
    list_rule P p.requests p _ (λ _. h) (λ i is e. if_rule P _ p _ (λ _. h) (λ _. h))

pub take_response-IsHeld : (p : ProxyState) → IsHeld p.control → IsHeld (take_response p).control
unfolding take_response
take_response-IsHeld p h =
    let P = λ (x : ProxyState). IsHeld x.control in
    list_rule P p.responses p _ (λ _. h) (λ r rs e. if_rule P _ p _ (λ _. h) (λ _. h))

pub finish_request-IsHeld :
    (i : ℕ) (failed : Bool) (p : ProxyState)
    → IsHeld p.control
    → IsHeld (finish_request i failed p).control
unfolding finish_request
finish_request-IsHeld i failed p h =
    let P = λ (x : ProxyState). IsHeld x.control in
    option_rule P (get_elem? p.in_flight i) p _ (λ _. h)
      (λ item e. if_rule P (is_done p) _ _ (λ _. h) (λ _. if_rule P _ _ p (λ _. h) (λ _. h)))

pub write_response-IsHeld :
    (ok : Bool) (p : ProxyState) → IsHeld p.control → IsHeld (write_response ok p).control
unfolding write_response
write_response-IsHeld ok p h =
    let P = λ (x : ProxyState). IsHeld x.control in
    option_rule P p.writing p _ (λ _. h)
      (λ r e.
        if_rule P ok _ _
          (λ _.
            objects-IsHeld p.control _
              (λ n. open_at-complete_response n r.item.tunnel p.control.objects) h)
          (λ _. detach_cleanup-IsHeld (some (codes "failed to send ProxyConnRsp")) p.control h))
