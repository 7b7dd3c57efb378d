-- ===== src/Base/Maps.antt =====
-- Go maps keyed by strings, as association lists. No law depends on the order of the entries.
use Prim.Native.Nat.{ℕ, ◌+◌}
use mathlib.Core.Path.{◌≡◌, refl, sym, ◌∙◌}
use mathlib.Core.Logic.{inl, inr}
use mathlib.Core.Option.{Option, none, some}
use mathlib.Core.List.{List, [], ◌∷◌}
use native.Mathlib.Omega.{arith}
use rstream_go.Base.Tests.{if◌then◌else◌, Bool-cases}
use rstream_go.Base.Strings.{Text, equal, equal_iff, equal_refl}

abbrev pub Dict : Type 0 → Type 0
Dict V = List (Text × V)

module _ {V : Type 0} where
  unfoldable pub lookup : Text → Dict V → Option V
  lookup k [] = none
  lookup k ((j, v) ∷ m) = if equal j k then some v else lookup k m

  -- `m[k] = v`
  unfoldable pub insert : Text → V → Dict V → Dict V
  insert k v [] = (k, v) ∷ []
  insert k v ((j, w) ∷ m) = if equal j k then (k, v) ∷ m else (j, w) ∷ insert k v m

  -- `delete(m, k)`
  unfoldable pub delete : Text → Dict V → Dict V
  delete k [] = []
  delete k ((j, w) ∷ m) = let rest = delete k m in if equal j k then rest else (j, w) ∷ rest

  pub lookup-insert :
      (k j : Text) (v : V) (m : Dict V)
      → lookup j (insert k v m) ≡ (if equal k j then some v else lookup j m)
  unfolding lookup insert
  lookup-insert k j v [] = refl
  lookup-insert k j v ((i, w) ∷ m) =
      ground (arith, equal_iff k j, equal_iff i k, equal_iff i j, lookup-insert k j v m)

  pub lookup-delete :
      (k j : Text) (m : Dict V) → lookup j (delete k m) ≡ (if equal k j then none else lookup j m)
  unfolding lookup delete
  lookup-delete k j [] = ground arith
  lookup-delete k j ((i, w) ∷ m) =
      ground (arith, equal_iff k j, equal_iff i k, equal_iff i j, lookup-delete k j m)

  -- Every key stands once, as in a map.
  abbrev pub Unique : Dict V → Type 0
  Unique [] = Unit
  Unique ((k, _) ∷ m) = (lookup k m ≡ none) × Unique m

  pub Unique-delete : (k : Text) (m : Dict V) → Unique m → Unique (delete k m)
  unfolding delete
  Unique-delete k [] u = tt
  Unique-delete k ((j, w) ∷ m) (n, u) = elim (Bool-cases (equal j k)) [
    | inl e ↦ rw e (Unique-delete k m u)
    | inr e ↦ rw e ((rw (lookup-delete k j m, n) (ground arith), Unique-delete k m u))
  ]

  pub Unique-insert : (k : Text) (v : V) (m : Dict V) → Unique m → Unique (insert k v m)
  unfolding insert
  Unique-insert k v [] u = (unfold lookup in refl, tt)
  Unique-insert k v ((j, w) ∷ m) (n, u) = elim (Bool-cases (equal j k)) [
    | inl e ↦ rw e ((rw (← (equal_iff j k).0 e) n, u))
    | inr e ↦ rw e (
        (
          ground (arith, lookup-insert k j v m, equal_iff j k, equal_iff k j),
          Unique-insert k v m u,
        ))
  ]

  -- The sum of a weight over the values.
  unfoldable pub weight : (V → ℕ) → Dict V → ℕ
  weight f [] = 0
  weight f ((k, v) ∷ m) = f v + weight f m

  abbrev pub weight_at : (V → ℕ) → Option V → ℕ
  weight_at f none = 0
  weight_at f (some v) = f v

  pub weight-delete :
      (f : V → ℕ) (k : Text) (m : Dict V)
      → Unique m
      → weight f (delete k m) + weight_at f (lookup k m) ≡ weight f m
  unfolding weight delete lookup
  weight-delete f k [] u = refl
  weight-delete f k ((j, w) ∷ m) (n, u) = elim (Bool-cases (equal j k)) [
    | inl e ↦
        let absent : lookup k m ≡ none = rw (← (equal_iff j k).0 e) n in
        ground (arith, absent, weight-delete f k m u)
    | inr e ↦ rw e (omega (arith, weight-delete f k m u))
  ]

  pub weight-insert :
      (f : V → ℕ) (k : Text) (v : V) (m : Dict V)
      → lookup k m ≡ none
      → weight f (insert k v m) ≡ f v + weight f m
  unfolding weight insert lookup
  weight-insert f k v [] h = refl
  weight-insert f k v ((j, w) ∷ m) h = elim (Bool-cases (equal j k)) [
    | inl e ↦ absurd (ground arith)
    | inr e ↦ rw e (omega (arith, weight-insert f k v m (rw e at h)))
  ]

  pub lookup-cons :
      (k j : Text) (v : V) (m : Dict V)
      → lookup k ((j, v) ∷ m) ≡ (if equal j k then some v else lookup k m)
  unfolding lookup
  lookup-cons k j v m = refl

  pub nil_of_lookup : (m : Dict V) → ((k : Text) → lookup k m ≡ none) → m ≡ []
  nil_of_lookup [] h = refl
  nil_of_lookup ((k, v) ∷ m) h = absurd (unfold lookup in ground (arith, h k, equal_refl k))

  -- Two maps with the same entries have the same weight.
  pub weight-eq :
      (f : V → ℕ) (m m' : Dict V)
      → Unique m
      → Unique m'
      → ((k : Text) → lookup k m ≡ lookup k m')
      → weight f m ≡ weight f m'
  unfolding weight
  weight-eq f [] m' u u' h = rw (nil_of_lookup m' (λ k. sym (h k) ∙ (unfold lookup in refl)))
  weight-eq f ((k, v) ∷ m) m' (n, u) u' h =
      let here : lookup k m' ≡ some v = sym (h k) ∙ (unfold lookup in rw (equal_refl k)) in
      let rest = weight-eq f m (delete k m') u (Unique-delete k m' u') (λ j.
        elim (Bool-cases (equal k j)) [
          | inl e ↦ rw (lookup-delete k j m', e) (rw ((equal_iff k j).0 e) at n)
          | inr e ↦ rw (lookup-delete k j m', e) (rw (lookup-cons j k v m, e) at (h j))
        ]) in
      let w = weight-delete f k m' u' in omega (arith, rest, rw here at w)
