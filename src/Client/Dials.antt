-- ===== src/Client/Dials.antt =====
-- client.go: where the cancel functions of the pending dials are.
use rstream_go.Base.{
  ℕ, zero, suc, ◌+◌, ◌≤◌, ◌<◌, ◌≡◌, ◌≢◌, ◌⊎◌, refl, ap, inl, inr, arith, true, false, none, some,
  List, [], ◌∷◌, ◌++◌, ◌==◌, ==_iff, Bool-cases, bit, option_rule, length, get_elem?, set, put,
  drop_key, value_at, value_at-put, value_at-drop_key,
}
use mathlib.Core.Path.{subst}
use rstream_go.Client.{Dial, cancel_at, values}

abbrev pub times : ℕ → List ℕ → ℕ
times n [] = 0
times n (m ∷ ms) = bit (m == n) + times n ms

-- Dial `n` was cancelled, its own function is about to cancel it, or its cancel function stands in the map or with
-- `Close`.
abbrev pub HasPlace : List (ℕ × ℕ) → List ℕ → ℕ → Dial → Type 0
HasPlace m taken n d =
    (d.is_ending ≡ true)
    ⊎ ((d.is_cancelled ≡ true) ⊎ ((value_at d.id m ≡ some n) ⊎ (1 ≤ times n taken)))

abbrev pub ArePlaced : List Dial → List (ℕ × ℕ) → List ℕ → Type 0
ArePlaced ds m taken =
    (n : ℕ) → (d : Dial) → get_elem? ds n ≡ some d → (d.id ≡ n + 1) × HasPlace m taken n d

pub times-append : (n : ℕ) (ms ns : List ℕ) → times n (ms ++ ns) ≡ times n ms + times n ns
times-append n [] ns = omega arith
times-append n (m ∷ ms) ns = omega (arith, times-append n ms ns)

times-values : (k n : ℕ) (m : List (ℕ × ℕ)) → value_at k m ≡ some n → 1 ≤ times n (values m)
unfolding value_at
times-values k n [] h = absurd (cc)
times-values k n ((j, v) ∷ m) h = ground (arith, h, ==_iff v n, times-values k n m)

pub length-set_dial : (ds : List Dial) (n : ℕ) (d : Dial) → length (set ds n d) ≡ length ds
unfolding set
length-set_dial [] n d = refl
length-set_dial (x ∷ ds) zero d = refl
length-set_dial (x ∷ ds) (suc n) d = omega (arith, length-set_dial ds n d)

pub length-cancel_at : (n : ℕ) (ds : List Dial) → length (cancel_at n ds) ≡ length ds
length-cancel_at n ds =
    option_rule (λ (x : List Dial). length x ≡ length ds) (get_elem? ds n) _ _ (λ _. refl)
      (λ d _. length-set_dial ds n (record d { is_cancelled = true }))

-- An element of a list with one more is an old one, or the last.
last_cases :
    (ds : List Dial) (e : Dial) (n : ℕ) (d : Dial)
    → get_elem? (ds ++ (e ∷ [])) n ≡ some d
    → ((n < length ds) × (get_elem? ds n ≡ some d)) ⊎ ((n ≡ length ds) × (d ≡ e))
unfolding get_elem?
last_cases [] e zero d h = inr (refl, cc)
last_cases [] e (suc n) d h = absurd (cc)
last_cases (x ∷ ds) e zero d h = inl (omega arith, h)
last_cases (x ∷ ds) e (suc n) d h = ground (arith, last_cases ds e n d h)

pub begin-ArePlaced :
    (ds : List Dial) (m : List (ℕ × ℕ)) (taken : List ℕ) (e : Dial)
    → e.id ≡ length ds + 1
    → ArePlaced ds m taken
    → ArePlaced (ds ++ (e ∷ [])) (put e.id (length ds) m) taken
begin-ArePlaced ds m taken e f p n d h = elim (last_cases ds e n d h) [
  | inl (lt, g) ↦
      let q = p n d g in
      (q.0, ground (arith, lt, f, q.0, q.1, value_at-put e.id d.id (length ds) m, ==_iff e.id d.id))
  | inr (at, same) ↦ (
    omega (arith, ap (λ (x : Dial). x.id) same, f, at),
    inr (
        inr (
          inl (
            ground
              (arith, ap (λ (x : Dial). x.id) same, at, value_at-put e.id d.id (length ds) m)))),
  )
]

set_dial_cases :
    (ds : List Dial) (k n : ℕ) (e d : Dial)
    → get_elem? (set ds k e) n ≡ some d
    → ((k ≡ n) × (d ≡ e)) ⊎ ((k ≢ n) × (get_elem? ds n ≡ some d))
unfolding set get_elem?
set_dial_cases [] k n e d h = absurd (cc)
set_dial_cases (x ∷ ds) zero zero e d h = inl (refl, cc)
set_dial_cases (x ∷ ds) zero (suc n) e d h = inr ((λ q. omega arith), h)
set_dial_cases (x ∷ ds) (suc k) zero e d h = inr ((λ q. omega arith), h)
set_dial_cases (x ∷ ds) (suc k) (suc n) e d h = elim (set_dial_cases ds k n e d h) [
  | inl (q, r) ↦ inl (ap suc q, r)
  | inr (q, r) ↦ inr ((λ z. q (omega (arith, z))), r)
]

-- The critical section that ends the dial `k`.
pub end-ArePlaced :
    (ds : List Dial) (m : List (ℕ × ℕ)) (taken : List ℕ) (k : ℕ) (e : Dial)
    → get_elem? ds k ≡ some e
    → ArePlaced ds m taken
    → ArePlaced (set ds k (record e { is_ending = true })) (drop_key e.id m) taken
end-ArePlaced ds m taken k e at p n d h =
    let own = (p k e at).0 in
    elim (set_dial_cases ds k n (record e { is_ending = true }) d h) [
      | inl (q, same) ↦ (
        omega (arith, ap (λ (x : Dial). x.id) same, own, q),
        inl (ap (λ (x : Dial). x.is_ending) same),
      )
      | inr (q, g) ↦
          let r = p n d g in
          let apart : (e.id == d.id) ≡ false = ground (arith, q, own, r.0) in
          let kept : value_at d.id (drop_key e.id m) ≡ value_at d.id m =
            rw apart at (value_at-drop_key e.id d.id m) in
          (r.0, rw kept r.1)
    ]

pub weaken-ArePlaced :
    (ds : List Dial) (m : List (ℕ × ℕ)) (k : ℕ) (taken : List ℕ)
    → ArePlaced ds m taken
    → ArePlaced ds m (k ∷ taken)
weaken-ArePlaced ds m k taken p n d h = let q = p n d h in (q.0, ground (arith, q.1))

pub take-ArePlaced :
    (ds : List Dial) (m : List (ℕ × ℕ)) → ArePlaced ds m [] → ArePlaced ds [] (values m)
unfolding value_at
take-ArePlaced ds m p n d h = let q = p n d h in (q.0, ground (arith, q.1, times-values d.id n m))

places_apart :
    (ds : List Dial) (k n : ℕ) (d : Dial)
    → get_elem? ds k ≡ none
    → get_elem? ds n ≡ some d
    → (k == n) ≡ false
places_apart ds k n d gone h = elim (Bool-cases (k == n)) [
  | inl t ↦
      let same : get_elem? ds n ≡ none =
        subst (λ j. get_elem? ds j ≡ none) ((==_iff k n).0 t) gone in
      absurd (cc)
  | inr f ↦ f
]

-- A dial is cancelled, by `Close` or by its own function.
pub cancel-ArePlaced :
    (ds : List Dial) (m : List (ℕ × ℕ)) (k : ℕ) (taken : List ℕ)
    → ArePlaced ds m (k ∷ taken)
    → ArePlaced (cancel_at k ds) m taken
cancel-ArePlaced ds m k taken p =
    option_rule (λ (x : List Dial). ArePlaced x m taken) (get_elem? ds k) _ _
      (λ gone n d h.
        let r = p n d h in
        let other : (k == n) ≡ false = places_apart ds k n d gone h in
        (r.0, ground (arith, other, r.1)))
      (λ e at n d h. elim (set_dial_cases ds k n (record e { is_cancelled = true }) d h) [
        | inl (q, same) ↦ (
          omega (arith, ap (λ (x : Dial). x.id) same, (p k e at).0, q),
          inr (inl (ap (λ (x : Dial). x.is_cancelled) same)),
        )
        | inr (q, g) ↦
            let r = p n d g in
            let other : (k == n) ≡ false = ground (arith, q) in (r.0, ground (arith, other, r.1))
      ])
