-- ===== src/Control/Proxy/Balance.antt =====
-- client.go: every proxy request that is taken in stands at one place until it is answered.
use rstream_go.Base.{
  ℕ, zero, suc, ◌+◌, ◌-◌, Bool, true, false, not, ◌||◌, Option, none, some, List, [], ◌∷◌, ◌++◌,
  ◌≡◌, refl, arith, if◌then◌else◌, ◌==◌, ==_iff, length, get_elem?, set, is_nil, is_some, ltb, bit,
  if_rule, option_rule, list_rule, ap, Text, trim_space, lookup,
}
use rstream_go.Control.{Tunnel, Objects, Control, detach_cleanup}
use rstream_go.Control.Proxy.{
  Item, Response, ProxyState, add_response, complete_response, start_runtime, reject, enqueue,
  ProxyReq, bad_redirect, handle_proxy_req, take_request, remove_at, finish_request, take_response,
  write_response, is_done,
}

-- Sums of a weight over items and over responses.
abbrev pub load : (Item → ℕ) → List Item → ℕ
load f [] = 0
load f (i ∷ is) = f i + load f is

abbrev pub load_responses : (Item → ℕ) → List Response → ℕ
load_responses f [] = 0
load_responses f (r ∷ rs) = f r.item + load_responses f rs

abbrev pub load_writing : (Item → ℕ) → Option Response → ℕ
load_writing f none = 0
load_writing f (some r) = f r.item

-- The weight of what is not answered yet.
abbrev pub unanswered : (Item → ℕ) → ProxyState → ℕ
unanswered f p =
    load f p.requests
    + load f p.in_flight
    + load_responses f p.responses
    + load_writing f p.writing
    + load f p.abandoned

abbrev counts_for : ℕ → Option ℕ → ℕ
counts_for n none = 0
counts_for n (some m) = bit (m == n)

abbrev pub of_tunnel : ℕ → Item → ℕ
of_tunnel n i = counts_for n i.tunnel

abbrev pending_of : Option Tunnel → ℕ
pending_of none = 0
pending_of (some t) = t.proxy_pending

abbrev pub pending_at : ℕ → List Tunnel → ℕ
pending_at n store = pending_of (get_elem? store n)

pub record IsBalanced (p : ProxyState) : Type 0 where
  pub answered : (f : Item → ℕ) → load f p.asked ≡ load_responses f p.written + unanswered f p
  pub counted : (n : ℕ) → pending_at n p.control.objects.store ≡ unanswered (of_tunnel n) p
  pub idle : p.is_started ≡ false → (p.requests ≡ []) × (p.in_flight ≡ []) × (p.responses ≡ [])

load-append : (f : Item → ℕ) (is js : List Item) → load f (is ++ js) ≡ load f is + load f js
load-append f [] js = omega arith
load-append f (i ∷ is) js = omega (arith, load-append f is js)

load_responses-append :
    (f : Item → ℕ) (rs ss : List Response)
    → load_responses f (rs ++ ss) ≡ load_responses f rs + load_responses f ss
load_responses-append f [] ss = omega arith
load_responses-append f (r ∷ rs) ss = omega (arith, load_responses-append f rs ss)

load-remove_at :
    (f : Item → ℕ) (i : ℕ) (is : List Item) (x : Item)
    → get_elem? is i ≡ some x
    → load f (remove_at i is) + f x ≡ load f is
unfolding get_elem? remove_at
load-remove_at f i [] x h = absurd (cc)
load-remove_at f zero (y ∷ is) x h = ground (arith, h)
load-remove_at f (suc i) (y ∷ is) x h = omega (arith, load-remove_at f i is x h)

pub pending_at-set :
    (n ref : ℕ) (store : List Tunnel) (s t : Tunnel)
    → get_elem? store ref ≡ some s
    → pending_at n (set store ref t) ≡ (if ref == n then t.proxy_pending else pending_at n store)
unfolding get_elem? set
pending_at-set n ref [] s t h = absurd (cc)
pending_at-set zero zero (x ∷ store) s t h = refl
pending_at-set (suc n) zero (x ∷ store) s t h = ground arith
pending_at-set zero (suc ref) (x ∷ store) s t h = ground arith
pending_at-set (suc n) (suc ref) (x ∷ store) s t h =
    ground (arith, pending_at-set n ref store s t h)

-- The tunnel that an item names is in the store.
abbrev pub Stored : Option ℕ → Objects → Type 0
Stored none o = Unit
Stored (some ref) o = (t : Tunnel) × (get_elem? o.store ref ≡ some t)

pending_at-add_response :
    (n : ℕ) (tunnel : Option ℕ) (o : Objects)
    → Stored tunnel o
    → pending_at n (add_response tunnel o).store ≡ pending_at n o.store + counts_for n tunnel
unfolding add_response
pending_at-add_response n none o s = omega arith
pending_at-add_response n (some ref) o (t, h) = ground (
  arith,
  h,
  ==_iff ref n,
  pending_at-set n ref o.store t (record t { proxy_pending = t.proxy_pending + 1 }) h,
)

pending_at-complete_response :
    (n : ℕ) (tunnel : Option ℕ) (o : Objects)
    → pending_at n (complete_response tunnel o).store ≡ pending_at n o.store - counts_for n tunnel
unfolding complete_response
pending_at-complete_response n none o = omega arith
pending_at-complete_response n (some ref) o =
    option_rule (λ x. pending_at n x.store ≡ pending_at n o.store - bit (ref == n))
      (get_elem? o.store ref) o _ (λ h. ground (arith, h, ==_iff ref n))
      (λ t h. ground (
        arith,
        h,
        ==_iff ref n,
        pending_at-set n ref o.store t (record t { proxy_pending = t.proxy_pending - 1 }) h,
      ))

reject-IsBalanced :
    (i : Item) (p : ProxyState)
    → Stored i.tunnel p.control.objects
    → p.is_started ≡ true
    → IsBalanced p
    → IsBalanced (reject i p).0
unfolding reject
reject-IsBalanced i p s on b =
    let r : Response = record { item = i; is_failed = true } in
    if_rule (λ (x : ProxyState × Bool). IsBalanced x.0) (ltb (length p.responses) p.response_limit)
      _ _
      (λ _. record {
        answered = λ f. omega (arith, b.answered f, load_responses-append f p.responses (r ∷ []));
        counted = λ n. omega (
          arith,
          b.counted n,
          load_responses-append (of_tunnel n) p.responses (r ∷ []),
          pending_at-add_response n i.tunnel p.control.objects s,
        );
        idle = λ o. absurd (ground (arith, on, o));
      })
      (λ _. b)

enqueue-IsBalanced :
    (i : Item) (p : ProxyState)
    → Stored i.tunnel p.control.objects
    → p.is_started ≡ true
    → IsBalanced p
    → IsBalanced (enqueue i p).0
unfolding enqueue
enqueue-IsBalanced i p s on b =
    if_rule (λ (x : ProxyState × Bool). IsBalanced x.0) (ltb (length p.requests) p.queue_limit) _ _
      (λ _. record {
        answered = λ f. omega (arith, b.answered f, load-append f p.requests (i ∷ []));
        counted = λ n. omega (
          arith,
          b.counted n,
          load-append (of_tunnel n) p.requests (i ∷ []),
          pending_at-add_response n i.tunnel p.control.objects s,
        );
        idle = λ o. absurd (ground (arith, on, o));
      })
      (λ _. reject-IsBalanced i p s on b)

start_runtime-IsBalanced : (p : ProxyState) → IsBalanced p → IsBalanced (start_runtime p)
unfolding start_runtime
start_runtime-IsBalanced p b =
    if_rule IsBalanced p.is_started p _ (λ _. b)
      (λ o.
        let e = b.idle o in
        record {
          answered = λ f. omega (arith, b.answered f, ap (load f) e.0, ap (load_responses f) e.2);
          counted = λ n. omega (
            arith,
            b.counted n,
            ap (load (of_tunnel n)) e.0,
            ap (load_responses (of_tunnel n)) e.2,
          );
          idle = λ s. absurd (ground (arith, s));
        })

pub take_request-IsBalanced : (p : ProxyState) → IsBalanced p → IsBalanced (take_request p)
unfolding take_request
take_request-IsBalanced p b =
    list_rule IsBalanced p.requests p _ (λ _. b)
      (λ i is e.
        if_rule IsBalanced (is_done p || not (ltb (length p.in_flight) p.workers)) p _ (λ _. b)
          (λ _. record {
            answered = λ f. omega (arith, b.answered f, ap (load f) e);
            counted = λ n. omega (arith, b.counted n, ap (load (of_tunnel n)) e);
            idle = λ o. absurd (omega (arith, ap length e, ap length (b.idle o).0));
          }))

no_elem : (i : ℕ) (x : Item) (is : List Item) → is ≡ [] → get_elem? is i ≡ some x → ⊥
unfolding get_elem?
no_elem i x [] n e = ground (arith, e)
no_elem i x (y ∷ is) n e = ground (arith, n)

pub finish_request-IsBalanced :
    (i : ℕ) (failed : Bool) (p : ProxyState) → IsBalanced p → IsBalanced (finish_request i failed p)
unfolding finish_request
finish_request-IsBalanced i failed p b =
    let none_taken : p.is_started ≡ false → (x : Item) → get_elem? p.in_flight i ≡ some x → ⊥ =
      λ o x e. no_elem i x p.in_flight (b.idle o).1 e in
    option_rule IsBalanced (get_elem? p.in_flight i) p _ (λ _. b)
      (λ item e.
        if_rule IsBalanced (is_done p) _ _
          (λ _. record {
            answered = λ f. omega (arith, b.answered f, load-remove_at f i p.in_flight item e);
            counted =
                λ n. omega (arith, b.counted n, load-remove_at (of_tunnel n) i p.in_flight item e);
            idle = λ o. absurd (none_taken o item e);
          })
          (λ _.
            let r : Response = record { item = item; is_failed = failed } in
            if_rule IsBalanced (ltb (length p.responses) p.response_limit) _ p
              (λ _. record {
                answered = λ f. omega (
                  arith,
                  b.answered f,
                  load-remove_at f i p.in_flight item e,
                  load_responses-append f p.responses (r ∷ []),
                );
                counted = λ n. omega (
                  arith,
                  b.counted n,
                  load-remove_at (of_tunnel n) i p.in_flight item e,
                  load_responses-append (of_tunnel n) p.responses (r ∷ []),
                );
                idle = λ o. absurd (none_taken o item e);
              })
              (λ _. b)))

no_writing : (f : Item → ℕ) (w : Option Response) → is_some w ≡ false → load_writing f w ≡ 0
no_writing f none h = refl
no_writing f (some r) h = absurd (ground (arith, h))

-- The step from the queue to the writer, on the sums.
take_load :
    (f : Item → ℕ) (r : Response) (rs : List Response) (p : ProxyState)
    → p.responses ≡ r ∷ rs
    → (is_done p || is_some p.writing) ≡ false
    → load f p.asked ≡ load_responses f p.written + unanswered f p
    → load f p.asked
      ≡ load_responses f p.written
        + (load f p.requests
            + load f p.in_flight
            + load_responses f rs
            + f r.item
            + load f p.abandoned)
take_load f r rs p e h b =
    omega (arith, b, ap (load_responses f) e, no_writing f p.writing (ground (arith, h)))

take_counted :
    (f : Item → ℕ) (r : Response) (rs : List Response) (p : ProxyState) {m : ℕ}
    → p.responses ≡ r ∷ rs
    → (is_done p || is_some p.writing) ≡ false
    → m ≡ unanswered f p
    → m
      ≡ load f p.requests + load f p.in_flight + load_responses f rs + f r.item + load f p.abandoned
take_counted f r rs p e h b =
    omega (arith, b, ap (load_responses f) e, no_writing f p.writing (ground (arith, h)))

pub take_response-IsBalanced : (p : ProxyState) → IsBalanced p → IsBalanced (take_response p)
unfolding take_response
take_response-IsBalanced p b =
    list_rule IsBalanced p.responses p _ (λ _. b)
      (λ r rs e.
        if_rule IsBalanced (is_done p || is_some p.writing) p _ (λ _. b)
          (λ h. record {
            answered = λ f. take_load f r rs p e h (b.answered f);
            counted = λ n. take_counted (of_tunnel n) r rs p e h (b.counted n);
            idle = λ o. absurd (omega (arith, ap length e, ap length (b.idle o).2));
          }))

detach_cleanup-objects : (e : Option Text) (c : Control) → (detach_cleanup e c).objects ≡ c.objects
unfolding detach_cleanup
detach_cleanup-objects e c = ground arith

pub write_response-IsBalanced :
    (ok : Bool) (p : ProxyState) → IsBalanced p → IsBalanced (write_response ok p)
unfolding write_response
write_response-IsBalanced ok p b =
    option_rule IsBalanced p.writing p _ (λ _. b)
      (λ r e.
        if_rule IsBalanced ok _ _
          (λ _. record {
            answered = λ f. omega (arith, b.answered f, ap (load_writing f) e);
            counted = λ n. omega (
              arith,
              b.counted n,
              ap (load_writing (of_tunnel n)) e,
              pending_at-complete_response n r.item.tunnel p.control.objects,
            );
            idle = b.idle;
          })
          (λ _. record {
            answered = λ f. omega (arith, b.answered f, ap (load_writing f) e);
            counted = λ n.
                rw (detach_cleanup-objects _ p.control)
                  (omega (arith, b.counted n, ap (load_writing (of_tunnel n)) e));
            idle = b.idle;
          }))

-- Every tunnel of the map is in the store.
abbrev pub IsMapped : Control → Type 0
IsMapped c = (id : Text) (ref : ℕ) → lookup id c.tunnels ≡ some ref → Stored (some ref) c.objects

start_runtime-is_started : (p : ProxyState) → (start_runtime p).is_started ≡ true
unfolding start_runtime
start_runtime-is_started p = ground arith

start_runtime-control : (p : ProxyState) → (start_runtime p).control ≡ p.control
unfolding start_runtime
start_runtime-control p = ground arith

pub handle_proxy_req-IsBalanced :
    (r : Option ProxyReq) (p : ProxyState)
    → IsMapped p.control
    → IsBalanced p
    → IsBalanced (handle_proxy_req r p).0
unfolding handle_proxy_req
handle_proxy_req-IsBalanced none p m b = b
handle_proxy_req-IsBalanced (some r) p m b =
    let P = λ (x : ProxyState × Bool). IsBalanced x.0 in
    let b' = start_runtime-IsBalanced p b in
    let on = start_runtime-is_started p in
    let m' : IsMapped (start_runtime p).control = rw (start_runtime-control p) m in
    if_rule P (is_nil (trim_space r.stream)) _ _ (λ _. b)
      (λ _.
        option_rule P (lookup r.tunnel_id (start_runtime p).control.tunnels) _ _
          (λ _.
            reject-IsBalanced (record { stream = r.stream; tunnel = none }) (start_runtime p)
              (tt {0}) on b')
          (λ ref e.
            if_rule P (bad_redirect r) _ _
              (λ _.
                reject-IsBalanced (record { stream = r.stream; tunnel = some ref })
                  (start_runtime p) (m' r.tunnel_id ref e) on b')
              (λ _.
                enqueue-IsBalanced (record { stream = r.stream; tunnel = some ref })
                  (start_runtime p) (m' r.tunnel_id ref e) on b')))
