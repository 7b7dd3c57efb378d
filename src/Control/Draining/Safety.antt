-- ===== src/Control/Draining/Safety.antt =====
-- client.go: when `drainingProxyTransport` closes the underlying transport.
use rstream_go.Base.{
  ℕ, zero, suc, ◌+◌, ◌≤◌, Bool, true, false, not, ◌||◌, some, List, [], ◌∷◌, ◌++◌, ◌≡◌, ◌⊎◌, inl,
  inr, refl, ◌∙◌, ap, arith, ◌==◌, bit, get_elem?, set, if_rule, option_rule,
}
use rstream_go.Control.Draining.{
  Transport, begin_dial, end_dial, release, detach, close, close_underlying, close_conn, Op,
  begins_dial, ends_dial, releases, detaches, closes_transport, closes_underlying, closes_conn,
  apply, apply_all, fresh, open_conns,
}

record IsCounted (t : Transport) : Type 0 where
  uses : t.active ≡ t.dialing + t.releasing + open_conns t.conns
  once : t.closes ≡ bit t.is_once_done
  late : (t.due + t.closes ≡ 0) ⊎ (t.is_detached ≡ true)
  idle : (t.due + t.closes ≡ 0) ⊎ (t.is_closed ≡ true) ⊎ (t.active ≡ 0)
  drained : (t.is_detached ≡ false) ⊎ (1 ≤ t.active) ⊎ (1 ≤ t.due + t.closes)

open_conns-append : (bs : List Bool) → open_conns (bs ++ (true ∷ [])) ≡ suc (open_conns bs)
open_conns-append [] = refl
open_conns-append (b ∷ bs) = omega (arith, open_conns-append bs)

open_conns-set :
    (i : ℕ) (bs : List Bool)
    → get_elem? bs i ≡ some true
    → suc (open_conns (set bs i false)) ≡ open_conns bs
unfolding get_elem? set
open_conns-set i [] h = absurd (cc)
open_conns-set zero (b ∷ bs) h = ground (arith, h)
open_conns-set (suc i) (b ∷ bs) h = omega (arith, open_conns-set i bs h)

begin_dial-IsCounted : (t : Transport) → IsCounted t → IsCounted (begin_dial t).0
unfolding begin_dial
begin_dial-IsCounted t v =
    if_rule (λ (x : Transport × Bool). IsCounted x.0) (t.is_detached || t.is_closed) _ _ (λ _. v)
      (λ h. record {
        uses = omega (arith, v.uses);
        once = v.once;
        late = v.late;
        idle = ground (arith, h, v.late);
        drained = ground (arith, h);
      })

end_dial-IsCounted : (b : Bool) (t : Transport) → IsCounted t → IsCounted (end_dial b t)
unfolding end_dial
end_dial-IsCounted b t v =
    if_rule IsCounted (t.dialing == 0) _ _ (λ _. v)
      (λ h.
        if_rule IsCounted (not b || t.is_detached || t.is_closed) _ _
          (λ _. record {
            uses = ground (arith, v.uses, h);
            once = v.once;
            late = v.late;
            idle = v.idle;
            drained = v.drained;
          })
          (λ _. record {
            uses = ground (arith, v.uses, h, open_conns-append t.conns);
            once = v.once;
            late = v.late;
            idle = v.idle;
            drained = v.drained;
          }))

release-IsCounted : (t : Transport) → IsCounted t → IsCounted (release t)
unfolding release
release-IsCounted t v =
    if_rule IsCounted (t.releasing == 0) _ _ (λ _. v)
      (λ h. record {
        uses = ground (arith, v.uses, h);
        once = v.once;
        late = ground (arith, v.late);
        idle = ground (arith, v.idle);
        drained = ground (arith, v.drained);
      })

detach-IsCounted : (t : Transport) → IsCounted t → IsCounted (detach t)
unfolding detach
detach-IsCounted t v = record {
  uses = v.uses;
  once = v.once;
  late = inr refl;
  idle = ground (arith, v.idle);
  drained = ground arith;
}

close-IsCounted : (t : Transport) → IsCounted t → IsCounted (close t)
unfolding close
close-IsCounted t v = record {
  uses = v.uses;
  once = v.once;
  late = inr refl;
  idle = inr (inl refl);
  drained = ground arith;
}

close_underlying-IsCounted : (t : Transport) → IsCounted t → IsCounted (close_underlying t)
unfolding close_underlying
close_underlying-IsCounted t v =
    if_rule IsCounted (t.due == 0) _ _ (λ _. v)
      (λ h.
        if_rule IsCounted t.is_once_done _ _
          (λ k. record {
            uses = v.uses;
            once = v.once;
            late = ground (arith, v.late, h, k, v.once);
            idle = ground (arith, v.idle, h, k, v.once);
            drained = ground (arith, v.drained, h, k, v.once);
          })
          (λ k. record {
            uses = v.uses;
            once = ground (arith, v.once, k);
            late = ground (arith, v.late, h, k);
            idle = ground (arith, v.idle, h, k);
            drained = ground (arith, v.drained, h, k);
          }))

close_conn-IsCounted : (i : ℕ) (t : Transport) → IsCounted t → IsCounted (close_conn i t)
unfolding close_conn
close_conn-IsCounted i t v =
    option_rule IsCounted (get_elem? t.conns i) _ _ (λ _. v)
      (λ b e.
        if_rule IsCounted b _ _
          (λ h. record {
            uses = ground (arith, v.uses, open_conns-set i t.conns (e ∙ ap some h));
            once = v.once;
            late = v.late;
            idle = v.idle;
            drained = v.drained;
          })
          (λ _. v))

apply-IsCounted : (o : Op) (t : Transport) → IsCounted t → IsCounted (apply o t)
unfolding apply
apply-IsCounted begins_dial t v = begin_dial-IsCounted t v
apply-IsCounted (ends_dial b) t v = end_dial-IsCounted b t v
apply-IsCounted releases t v = release-IsCounted t v
apply-IsCounted detaches t v = detach-IsCounted t v
apply-IsCounted closes_transport t v = close-IsCounted t v
apply-IsCounted closes_underlying t v = close_underlying-IsCounted t v
apply-IsCounted (closes_conn i) t v = close_conn-IsCounted i t v

apply_all-IsCounted : (os : List Op) (t : Transport) → IsCounted t → IsCounted (apply_all os t)
unfolding apply_all
apply_all-IsCounted [] t v = v
apply_all-IsCounted (o ∷ os) t v = apply_all-IsCounted os (apply o t) (apply-IsCounted o t v)

fresh-IsCounted : IsCounted fresh
fresh-IsCounted = record {
  uses = refl;
  once = refl;
  late = inl refl;
  idle = inl refl;
  drained = inl refl;
}

-- However dials, closes of connections, `Detach` and `Close` interleave, the underlying transport is closed at
-- most once, only when the transport was detached, and, unless it was closed as a whole, only while
-- no dial is under way and no connection is open.
pub drain-safe :
    (os : List Op)
    → let t = apply_all os fresh in
      (t.closes ≤ 1)
      × ((t.closes ≡ 0) ⊎ (t.is_detached ≡ true))
      × ((t.closes ≡ 0) ⊎ (t.is_closed ≡ true) ⊎ (t.dialing + open_conns t.conns ≡ 0))
drain-safe os =
    let v = apply_all-IsCounted os fresh fresh-IsCounted in
    (ground (arith, v.once), ground (arith, v.late), ground (arith, v.idle, v.uses))

-- And once the transport was detached and nothing is under way, no dial, no open connection, no goroutine
-- about to release or to close, the underlying transport was closed, exactly once.
pub drain-closes :
    (os : List Op)
    → (apply_all os fresh).is_detached ≡ true
    → (apply_all os fresh).dialing ≡ 0
    → (apply_all os fresh).releasing ≡ 0
    → (apply_all os fresh).due ≡ 0
    → open_conns (apply_all os fresh).conns ≡ 0
    → (apply_all os fresh).closes ≡ 1
drain-closes os a b c d e =
    let v = apply_all-IsCounted os fresh fresh-IsCounted in
    ground (arith, a, b, c, d, e, v.once, v.drained, v.uses)
