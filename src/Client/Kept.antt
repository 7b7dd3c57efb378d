-- ===== src/Client/Kept.antt =====
-- client.go: each step of a client and of its `Close` keeps account of the dials and the transport.
use rstream_go.Base.{
  ℕ, ◌+◌, ◌%◌, ◌^◌, ◌≤◌, ◌<◌, ◌≡◌, ◌⊎◌, refl, ap, inl, inr, arith, Bool, true, false, Option, List,
  [], ◌∷◌, if◌then◌else◌, ◌==◌, ==_iff, leb, if_rule, option_rule, list_rule, length, length-append,
  get_elem?, drop_key,
}
use mathlib.Core.Path.{subst}
use rstream_go.Client.{
  Client, Dial, begin_dial, end_dial, cancel_at, end_cancel, default_transport, owned, close_step,
}
use rstream_go.Client.Dials.{
  times, ArePlaced, times-append, length-set_dial, length-cancel_at, begin-ArePlaced, end-ArePlaced,
  cancel-ArePlaced, weaken-ArePlaced, take-ArePlaced,
}

pub record IsKept (c : Client) : Type 0 where
  pub flag : ((c.stage ≡ 0) × (c.is_closed ≡ false)) ⊎ ((1 ≤ c.stage) × (c.is_closed ≡ true))
  pub counted : c.next_dial_id ≡ length c.dials
  pub placed : ArePlaced c.dials c.dial_cancels c.taken
  pub none_left : (c.stage ≤ 1) ⊎ (c.dial_cancels ≡ [])
  pub none_taken : (c.stage ≡ 2) ⊎ (c.taken ≡ [])
  pub closed :
      (t : ℕ)
      → times t c.closed_transports
        ≡ (if leb 4 c.stage then times t (owned c.transport c.owns_transport) else 0)

left_over : {n : ℕ} {m : List (ℕ × ℕ)} (k : ℕ) → (n ≤ 1) ⊎ (m ≡ []) → (n ≤ 1) ⊎ (drop_key k m ≡ [])
unfolding drop_key
left_over k (inl lt) = inl lt
left_over k (inr e) = inr (ap (drop_key k) e)

pub begin_dial-IsKept :
    (c : Client) → IsKept c → length c.dials + 1 < 2 ^ 64 → IsKept (begin_dial c).0
unfolding begin_dial
begin_dial-IsKept c v lt =
    let small : (c.next_dial_id + 1) % 2 ^ 64 ≡ length c.dials + 1 = omega (arith, v.counted, lt) in
    let e : Dial = record {
      id = (c.next_dial_id + 1) % 2 ^ 64;
      is_ending = false;
      is_cancelled = false;
    } in
    if_rule (λ (x : Client × Bool). IsKept x.0) c.is_closed _ _ (λ _. v)
      (λ h. record {
        flag = v.flag;
        counted = omega (arith, small, length-append c.dials (e ∷ []));
        placed = begin-ArePlaced c.dials c.dial_cancels c.taken e small v.placed;
        none_left = ground (arith, v.flag, h);
        none_taken = v.none_taken;
        closed = v.closed;
      })

pub end_dial-IsKept : (n : ℕ) (c : Client) → IsKept c → IsKept (end_dial n c)
unfolding end_dial
end_dial-IsKept n c v =
    option_rule IsKept (get_elem? c.dials n) c _ (λ _. v)
      (λ d at. record {
        flag = v.flag;
        counted =
            omega (arith, v.counted, length-set_dial c.dials n (record d { is_ending = true }));
        placed = end-ArePlaced c.dials c.dial_cancels c.taken n d at v.placed;
        none_left = left_over d.id v.none_left;
        none_taken = v.none_taken;
        closed = v.closed;
      })

pub end_cancel-IsKept : (n : ℕ) (c : Client) → IsKept c → IsKept (end_cancel n c)
unfolding end_cancel
end_cancel-IsKept n c v =
    option_rule IsKept (get_elem? c.dials n) c _ (λ _. v)
      (λ d _.
        if_rule IsKept d.is_ending _ c
          (λ _. record {
            flag = v.flag;
            counted = omega (arith, v.counted, length-cancel_at n c.dials);
            placed =
                cancel-ArePlaced c.dials c.dial_cancels n c.taken
                  (weaken-ArePlaced c.dials c.dial_cancels n c.taken v.placed);
            none_left = v.none_left;
            none_taken = v.none_taken;
            closed = v.closed;
          })
          (λ _. v))

pub default_transport-IsKept : (c : Client) → IsKept c → IsKept (default_transport c).0
unfolding default_transport
default_transport-IsKept c v =
    let P = λ (x : Client × Option ℕ). IsKept x.0 in
    if_rule P c.is_closed _ _ (λ _. v)
      (λ h.
        option_rule P c.transport _ _
          (λ _. record {
            flag = v.flag;
            counted = v.counted;
            placed = v.placed;
            none_left = v.none_left;
            none_taken = v.none_taken;
            closed = λ t. ground (arith, v.flag, h, v.closed t);
          })
          (λ t e. v))

-- `Close` cancels the dials that it has taken.
cancel_taken-IsKept :
    (c : Client)
    → c.stage ≡ 2
    → IsKept c
    → IsKept (elim c.taken [
      | [] ↦ record c { stage = 3 }
      | n ∷ rest ↦ record c { taken = rest; dials = cancel_at n c.dials }
    ])
cancel_taken-IsKept c two v =
    list_rule IsKept c.taken _ _
      (λ e. record {
        flag = ground (arith, v.flag, two);
        counted = v.counted;
        placed = v.placed;
        none_left = ground (arith, v.none_left, two);
        none_taken = inr e;
        closed = λ t. ground (arith, v.closed t, two);
      })
      (λ n rest e. record {
        flag = v.flag;
        counted = omega (arith, v.counted, length-cancel_at n c.dials);
        placed =
            cancel-ArePlaced c.dials c.dial_cancels n rest
              (subst (ArePlaced c.dials c.dial_cancels) e v.placed);
        none_left = v.none_left;
        none_taken = inl two;
        closed = v.closed;
      })

nothing_taken : (c : Client) → (c.stage == 1) ≡ true → (c.stage ≡ 2) ⊎ (c.taken ≡ []) → c.taken ≡ []
nothing_taken c h (inl two) = absurd (ground (arith, h, two))
nothing_taken c h (inr e) = e

pub close_step-IsKept : (c : Client) → IsKept c → IsKept (close_step c)
unfolding close_step
close_step-IsKept c v =
    if_rule IsKept (c.stage == 0) _ _
      (λ h. record {
        flag = ground arith;
        counted = v.counted;
        placed = v.placed;
        none_left = inl (omega arith);
        none_taken = ground (arith, v.none_taken, h);
        closed = λ t. ground (arith, v.closed t, h);
      })
      (λ _.
        if_rule IsKept (c.stage == 1) _ _
          (λ h. record {
            flag = ground (arith, v.flag, h);
            counted = v.counted;
            placed = take-ArePlaced c.dials c.dial_cancels (
                subst (ArePlaced c.dials c.dial_cancels) (nothing_taken c h v.none_taken) v.placed);
            none_left = inr refl;
            none_taken = inl refl;
            closed = λ t. ground (arith, v.closed t, h);
          })
          (λ _.
            if_rule IsKept (c.stage == 2) _ _
              (λ h. cancel_taken-IsKept c ((==_iff c.stage 2).0 h) v)
              (λ _.
                if_rule IsKept (c.stage == 3) _ c
                  (λ h. record {
                    flag = ground (arith, v.flag, h);
                    counted = v.counted;
                    placed = v.placed;
                    none_left = ground (arith, v.none_left, h);
                    none_taken = ground (arith, v.none_taken, h);
                    closed = λ t. ground (
                      arith,
                      v.closed t,
                      h,
                      times-append t (owned c.transport c.owns_transport) c.closed_transports,
                    );
                  })
                  (λ _. v))))
