-- ===== src/Control/Tunnels.antt =====
-- client.go and tunnel.go: the tunnels of a control channel: each open one is held exactly once.
use rstream_go.Base.{
  ℕ, zero, suc, ◌+◌, ◌≤◌, Bool, true, false, not, ◌&&◌, ◌||◌, Option, none, some, List, [], ◌∷◌,
  ◌++◌, ◌≡◌, refl, arith, inl, inr, sym, ◌∙◌, if◌then◌else◌, ◌==◌, ==_iff, length, get_elem?, set,
  bit, is_some, if_rule, option_rule, Text, trim_space, is_nil, lookup, delete, Unique,
  Unique-insert, Unique-delete, weight, weight-insert, weight-delete,
}
use rstream_go.Cors.{Runes}
use rstream_go.Tunnel.{TunnelProperties, normalize_create}
use rstream_go.Control.{
  Tunnel, Objects, Reply, Cleanup, Control, close_tunnel, close_at, close_all, tunnel_error,
  detach_cleanup, run_cleanup, Requested, denied, request_tunnel, withdraw, OpenRsp, engine_error,
  properties, unexpected, open_from_properties, open_result, handle_open_rsp, handle_close_rsp,
  begin_close, begin_close_tunnel, new_tunnel, add_tunnel, is_datagram, allows_datagrams,
}
use rstream_go.Control.Replies.{tally, waiting, tally-entries, Normal-cases}

abbrev open_bit : Option Tunnel → ℕ
open_bit none = 0
open_bit (some t) = bit (not t.is_closed)

open_bit_le : (o : Option Tunnel) → open_bit o ≤ 1
open_bit_le none = omega arith
open_bit_le (some t) = ground arith

-- 1 for the number of an open tunnel, else 0.
abbrev pub open_at : ℕ → List Tunnel → ℕ
open_at n store = open_bit (get_elem? store n)

abbrev pub to_close : ℕ → Option Cleanup → ℕ
to_close n none = 0
to_close n (some k) = tally n k.tunnels

-- Each open tunnel is in the map, or the detached cleanup is about to close it; and a closed channel
-- has no entries.
pub record IsOwned (c : Control) : Type 0 where
  pub unique_tunnels : Unique c.tunnels
  pub owned : (n : ℕ) → waiting n c.tunnels + to_close n c.cleanup ≡ open_at n c.objects.store
  pub no_task : c.is_closed ≡ false → c.cleanup ≡ none
  pub is_empty : c.is_closed ≡ true → (c.pending ≡ []) × (c.tunnels ≡ [])

open_at-append :
    (n : ℕ) (store : List Tunnel) (t : Tunnel)
    → t.is_closed ≡ false
    → open_at n (store ++ (t ∷ [])) ≡ open_at n store + bit (length store == n)
unfolding get_elem?
open_at-append zero [] t h = ground (arith, h)
open_at-append (suc n) [] t h = ground arith
open_at-append zero (s ∷ store) t h = ground arith
open_at-append (suc n) (s ∷ store) t h = ground (arith, open_at-append n store t h)

pub open_at-set :
    (n ref : ℕ) (store : List Tunnel) (s t : Tunnel)
    → get_elem? store ref ≡ some s
    → open_at n (set store ref t) ≡ (if ref == n then bit (not t.is_closed) else open_at n store)
unfolding get_elem? set
open_at-set n ref [] s t h = absurd (cc)
open_at-set zero zero (x ∷ store) s t h = refl
open_at-set (suc n) zero (x ∷ store) s t h = ground arith
open_at-set zero (suc ref) (x ∷ store) s t h = ground arith
open_at-set (suc n) (suc ref) (x ∷ store) s t h = ground (arith, open_at-set n ref store s t h)

close_tunnel_closed : (e : Option Text) (t : Tunnel) → (close_tunnel e t).0.is_closed ≡ true
unfolding close_tunnel
close_tunnel_closed e t = ground arith

open_at-close_at :
    (e : Option Text) (n ref : ℕ) (o : Objects)
    → open_at n (close_at e ref o).store ≡ (if ref == n then 0 else open_at n o.store)
unfolding close_at
open_at-close_at e n ref o =
    option_rule (λ x. open_at n x.store ≡ (if ref == n then 0 else open_at n o.store))
      (get_elem? o.store ref) o _ (λ h. ground (arith, h, ==_iff ref n))
      (λ t h.
        ground (arith, open_at-set n ref o.store t (close_tunnel e t).0 h, close_tunnel_closed e t))

open_at-close_all :
    (e : Option Text) (n : ℕ) (refs : List ℕ) (o : Objects)
    → open_at n (close_all e refs o).store ≡ (if tally n refs == 0 then open_at n o.store else 0)
unfolding close_all
open_at-close_all e n [] o = refl
open_at-close_all e n (ref ∷ refs) o =
    ground (arith, open_at-close_all e n refs (close_at e ref o), open_at-close_at e n ref o)

-- A step that leaves the maps, the objects and the cleanup alone.
stay-IsOwned :
    (c d : Control)
    → d.tunnels ≡ c.tunnels
    → d.objects ≡ c.objects
    → d.cleanup ≡ c.cleanup
    → d.is_closed ≡ c.is_closed
    → (d.is_closed ≡ true → d.pending ≡ [])
    → IsOwned c
    → IsOwned d
stay-IsOwned c d a b k q p v = record {
  unique_tunnels = rw a v.unique_tunnels;
  owned = λ n. rw (a, b, k) (v.owned n);
  no_task = λ h. k ∙ v.no_task (sym q ∙ h);
  is_empty = λ h. (p h, a ∙ (v.is_empty (sym q ∙ h)).1);
}

pub request_tunnel-IsOwned :
    (runes : Runes) (fips : TunnelProperties → Bool) (id : Text) (props : TunnelProperties)
    (c : Control)
    → IsOwned c
    → IsOwned (request_tunnel runes fips id props c).0
unfolding request_tunnel
request_tunnel-IsOwned runes fips id props c v =
    if_rule (λ (x : Control × Requested). IsOwned x.0)
      (not (fips props) || c.is_closed || c.is_closing) (c, denied) _ (λ _. v)
      (λ e. elim (Normal-cases (normalize_create runes props)) [
        | inl (p, q) ↦
            rw q (stay-IsOwned c _ refl refl refl refl (λ h. absurd (ground (arith, e, h))) v)
        | inr (x, q) ↦ rw q v
      ])

pub withdraw-IsOwned :
    (id : Text) (chan : ℕ) (c : Control) → IsOwned c → IsOwned (withdraw id chan c)
unfolding withdraw
withdraw-IsOwned id chan c v =
    option_rule IsOwned (lookup id c.pending) c _ (λ _. v)
      (λ m e.
        if_rule IsOwned (m == chan) _ c
          (λ q.
            stay-IsOwned c _ refl refl refl refl
              (λ h. rw ((v.is_empty h).0) (unfold delete in refl)) v)
          (λ _. v))

-- A tunnel with a new identifier.
add_tunnel-IsOwned :
    (id : Text) (props : TunnelProperties) (c : Control)
    → c.is_closed ≡ false
    → lookup id c.tunnels ≡ none
    → IsOwned c
    → IsOwned (add_tunnel id props c)
add_tunnel-IsOwned id props c h absent v = record {
  unique_tunnels = Unique-insert id _ c.tunnels v.unique_tunnels;
  owned = λ n.
      let w = weight-insert (λ m. bit (m == n)) id (length c.objects.store) c.tunnels absent in
      ground (arith, v.owned n, w, open_at-append n c.objects.store (new_tunnel id props) refl);
  no_task = v.no_task;
  is_empty = λ k. absurd (ground (arith, h, k));
}

open_from_properties-IsOwned :
    (p : TunnelProperties) (c : Control) → IsOwned c → IsOwned (open_from_properties p c).0
unfolding open_from_properties
open_from_properties-IsOwned p c v =
    let P = λ (x : Control × Reply). IsOwned x.0 in
    option_rule P p.id _ _ (λ _. v)
      (λ id e.
        let ref = length c.objects.store in
        if_rule P (is_nil (trim_space id)) _ _ (λ _. v)
          (λ _.
            if_rule P (c.is_closed || c.is_closing) _ _ (λ _. v)
              (λ h.
                if_rule P (is_some (lookup id c.tunnels)) _ _ (λ _. v)
                  (λ absent.
                    let w =
                      add_tunnel-IsOwned id p c (ground (arith, h)) (ground (arith, absent)) v in
                    if_rule P (is_datagram p.type_of && c.has_provider && allows_datagrams p) _ _
                      (λ _.
                        stay-IsOwned (add_tunnel id p c) _ refl refl refl refl
                          (λ k. absurd (ground (arith, h, k))) w)
                      (λ _. if_rule P (is_datagram p.type_of) _ _ (λ _. w) (λ _. w))))))

open_result-IsOwned : (p : OpenRsp) (c : Control) → IsOwned c → IsOwned (open_result p c).0
unfolding open_result
open_result-IsOwned (engine_error e) c v = v
open_result-IsOwned (properties p) c v = open_from_properties-IsOwned p c v
open_result-IsOwned unexpected c v = v

pub handle_open_rsp-IsOwned :
    (id : Text) (p : OpenRsp) (c : Control) → IsOwned c → IsOwned (handle_open_rsp id p c)
unfolding handle_open_rsp
handle_open_rsp-IsOwned id p c v =
    option_rule IsOwned (lookup id c.pending) c _ (λ _. v)
      (λ chan e.
        let d = record c { pending = delete id c.pending } in
        let w = open_result-IsOwned p d (
          stay-IsOwned c d refl refl refl refl (λ h. rw ((v.is_empty h).0) (unfold delete in refl))
            v) in
        stay-IsOwned (open_result p d).0 _ refl refl refl refl (λ h. (w.is_empty h).0) w)

pub handle_close_rsp-IsOwned :
    (id : Text) (c : Control) → IsOwned c → IsOwned (handle_close_rsp id c)
unfolding handle_close_rsp
handle_close_rsp-IsOwned id c v =
    option_rule IsOwned (lookup id c.tunnels) c _ (λ _. v)
      (λ ref e. record {
        unique_tunnels = Unique-delete id c.tunnels v.unique_tunnels;
        owned = λ n.
            let w = weight-delete (λ m. bit (m == n)) id c.tunnels v.unique_tunnels in
            let b = open_bit_le (get_elem? c.objects.store n) in
            ground (arith, v.owned n, w, e, open_at-close_at none n ref c.objects, b);
        no_task = v.no_task;
        is_empty = λ h. ((v.is_empty h).0, rw ((v.is_empty h).1) (unfold delete in refl));
      })

pub detach_cleanup-IsOwned :
    (e : Option Text) (c : Control) → IsOwned c → IsOwned (detach_cleanup e c)
unfolding detach_cleanup
detach_cleanup-IsOwned e c v =
    if_rule IsOwned c.is_closed c _ (λ _. v)
      (λ h. record {
        unique_tunnels = tt;
        owned =
            λ n. unfold weight in ground (arith, v.owned n, v.no_task h, tally-entries n c.tunnels);
        no_task = λ k. absurd (ground (arith, k));
        is_empty = λ _. (refl, refl);
      })

pub run_cleanup-IsOwned : (c : Control) → IsOwned c → IsOwned (run_cleanup c)
unfolding run_cleanup
run_cleanup-IsOwned c v =
    option_rule IsOwned c.cleanup c _ (λ _. v)
      (λ k e. record {
        unique_tunnels = v.unique_tunnels;
        owned = λ n.
            let b = open_bit_le (get_elem? c.objects.store n) in
            ground (
              arith,
              v.owned n,
              e,
              open_at-close_all (tunnel_error k.error) n k.tunnels c.objects,
              b,
            );
        no_task = λ _. refl;
        is_empty = v.is_empty;
      })

pub begin_close-IsOwned : (c : Control) → IsOwned c → IsOwned (begin_close c).0
unfolding begin_close
begin_close-IsOwned c v =
    if_rule (λ (x : Control × Bool). IsOwned x.0) c.is_closed _ _ (λ _. v)
      (λ h. stay-IsOwned c _ refl refl refl refl (λ k. (v.is_empty k).0) v)

pub begin_close_tunnel-IsOwned :
    (ref : ℕ) (c : Control) → IsOwned c → IsOwned (begin_close_tunnel ref c)
unfolding begin_close_tunnel
begin_close_tunnel-IsOwned ref c v =
    option_rule IsOwned (get_elem? c.objects.store ref) c _ (λ _. v)
      (λ t e.
        if_rule IsOwned t.is_closed c _ (λ _. v)
          (λ h. record {
            unique_tunnels = v.unique_tunnels;
            owned = λ n.
                let s = open_at-set n ref c.objects.store t (record t { is_closing = true }) e in
                ground (arith, v.owned n, s, e, h, ==_iff ref n);
            no_task = v.no_task;
            is_empty = v.is_empty;
          }))
