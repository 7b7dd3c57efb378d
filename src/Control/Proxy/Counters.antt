-- ===== src/Control/Proxy/Counters.antt =====
-- client.go and tunnel.go: the operations of the control channel leave the tunnels' counters of pending proxy
-- responses alone.
use rstream_go.Base.{
  ℕ, zero, suc, Bool, true, ◌&&◌, ◌||◌, Option, none, List, [], ◌∷◌, ◌++◌, ◌≡◌, refl, arith, ◌∙◌,
  ==_iff, get_elem?, is_nil, is_some, if_rule, option_rule, Text, trim_space, lookup, delete,
}
use rstream_go.Cors.{Runes}
use rstream_go.Tunnel.{TunnelProperties}
use rstream_go.Control.{
  Tunnel, Objects, Control, close_tunnel, close_at, close_all, detach_cleanup, run_cleanup,
  tunnel_error, request_tunnel, withdraw, OpenRsp, engine_error, properties, unexpected,
  open_from_properties, open_result, handle_open_rsp, handle_close_rsp, begin_close,
  begin_close_tunnel, new_tunnel, Reply, is_datagram, allows_datagrams,
}
use rstream_go.Control.Proxy.{ProxyState}
use rstream_go.Control.Proxy.Balance.{IsBalanced, pending_at, pending_at-set}

-- The second control channel has the counters of the first.
abbrev pub Counts : Control → Control → Type 0
Counts c d = (n : ℕ) → pending_at n d.objects.store ≡ pending_at n c.objects.store

pub Counts-IsBalanced :
    (p : ProxyState) (d : Control)
    → Counts p.control d
    → IsBalanced p
    → IsBalanced (record p { control = d })
Counts-IsBalanced p d s b = record {
  answered = b.answered;
  counted = λ n. s n ∙ b.counted n;
  idle = b.idle;
}

pending_at-append :
    (n : ℕ) (store : List Tunnel) (t : Tunnel)
    → t.proxy_pending ≡ 0
    → pending_at n (store ++ (t ∷ [])) ≡ pending_at n store
unfolding get_elem?
pending_at-append zero [] t h = h
pending_at-append (suc n) [] t h = refl
pending_at-append zero (x ∷ store) t h = refl
pending_at-append (suc n) (x ∷ store) t h = pending_at-append n store t h

close_tunnel_pending :
    (e : Option Text) (t : Tunnel) → (close_tunnel e t).0.proxy_pending ≡ t.proxy_pending
unfolding close_tunnel
close_tunnel_pending e t = ground arith

pending_at-close_at :
    (e : Option Text) (n ref : ℕ) (o : Objects)
    → pending_at n (close_at e ref o).store ≡ pending_at n o.store
unfolding close_at
pending_at-close_at e n ref o =
    option_rule (λ x. pending_at n x.store ≡ pending_at n o.store) (get_elem? o.store ref) o _
      (λ _. refl)
      (λ t h. ground (
        arith,
        h,
        ==_iff ref n,
        close_tunnel_pending e t,
        pending_at-set n ref o.store t (close_tunnel e t).0 h,
      ))

pending_at-close_all :
    (e : Option Text) (n : ℕ) (refs : List ℕ) (o : Objects)
    → pending_at n (close_all e refs o).store ≡ pending_at n o.store
unfolding close_all
pending_at-close_all e n [] o = refl
pending_at-close_all e n (ref ∷ refs) o =
    pending_at-close_all e n refs (close_at e ref o) ∙ pending_at-close_at e n ref o

pub request_tunnel-Counts :
    (runes : Runes) (fips : TunnelProperties → Bool) (id : Text) (props : TunnelProperties)
    (c : Control)
    → Counts c (request_tunnel runes fips id props c).0
unfolding request_tunnel
request_tunnel-Counts runes fips id props c n = ground arith

pub withdraw-Counts : (id : Text) (chan : ℕ) (c : Control) → Counts c (withdraw id chan c)
unfolding withdraw
withdraw-Counts id chan c n = ground arith

open_from_properties-Counts :
    (p : TunnelProperties) (c : Control) → Counts c (open_from_properties p c).0
unfolding open_from_properties
open_from_properties-Counts p c n =
    let P =
      λ (x : Control × Reply). pending_at n x.0.objects.store ≡ pending_at n c.objects.store in
    option_rule P p.id _ _ (λ _. refl)
      (λ id e.
        let w = pending_at-append n c.objects.store (new_tunnel id p) refl in
        if_rule P (is_nil (trim_space id)) _ _ (λ _. refl)
          (λ _.
            if_rule P (c.is_closed || c.is_closing) _ _ (λ _. refl)
              (λ _.
                if_rule P (is_some (lookup id c.tunnels)) _ _ (λ _. refl)
                  (λ _.
                    if_rule P (is_datagram p.type_of && c.has_provider && allows_datagrams p) _ _
                      (λ _. w) (λ _. if_rule P (is_datagram p.type_of) _ _ (λ _. w) (λ _. w))))))

open_result-Counts : (p : OpenRsp) (c : Control) → Counts c (open_result p c).0
unfolding open_result
open_result-Counts (engine_error e) c n = refl
open_result-Counts (properties p) c n = open_from_properties-Counts p c n
open_result-Counts unexpected c n = refl

pub handle_open_rsp-Counts :
    (id : Text) (p : OpenRsp) (c : Control) → Counts c (handle_open_rsp id p c)
unfolding handle_open_rsp
handle_open_rsp-Counts id p c n =
    option_rule (λ (x : Control). pending_at n x.objects.store ≡ pending_at n c.objects.store)
      (lookup id c.pending) c _ (λ _. refl)
      (λ chan e. open_result-Counts p (record c { pending = delete id c.pending }) n)

pub handle_close_rsp-Counts : (id : Text) (c : Control) → Counts c (handle_close_rsp id c)
unfolding handle_close_rsp
handle_close_rsp-Counts id c n =
    option_rule (λ (x : Control). pending_at n x.objects.store ≡ pending_at n c.objects.store)
      (lookup id c.tunnels) c _ (λ _. refl) (λ ref e. pending_at-close_at none n ref c.objects)

pub detach_cleanup-Counts : (e : Option Text) (c : Control) → Counts c (detach_cleanup e c)
unfolding detach_cleanup
detach_cleanup-Counts e c n = ground arith

pub run_cleanup-Counts : (c : Control) → Counts c (run_cleanup c)
unfolding run_cleanup
run_cleanup-Counts c n =
    option_rule (λ (x : Control). pending_at n x.objects.store ≡ pending_at n c.objects.store)
      c.cleanup c _ (λ _. refl)
      (λ k e. pending_at-close_all (tunnel_error k.error) n k.tunnels c.objects)

pub begin_close-Counts : (c : Control) → Counts c (begin_close c).0
unfolding begin_close
begin_close-Counts c n = ground arith

pub begin_close_tunnel-Counts : (ref : ℕ) (c : Control) → Counts c (begin_close_tunnel ref c)
unfolding begin_close_tunnel
begin_close_tunnel-Counts ref c n =
    let P = λ (x : Control). pending_at n x.objects.store ≡ pending_at n c.objects.store in
    option_rule P (get_elem? c.objects.store ref) c _ (λ _. refl)
      (λ t e.
        if_rule P t.is_closed c _ (λ _. refl)
          (λ h. ground (
            arith,
            e,
            ==_iff ref n,
            pending_at-set n ref c.objects.store t (record t { is_closing = true }) e,
          )))
