-- ===== src/Base/Slots.antt =====
-- Reading and writing one place of a list, and counting places.
use Prim.Native.Nat.{ℕ, zero, suc, ◌+◌, ◌≤◌}
use mathlib.Core.Path.{◌≡◌, refl}
use mathlib.Core.Logic.{◌≢◌, ◌⊎◌, inl, inr}
use mathlib.Core.Bool.{Bool}
use mathlib.Core.Option.{Option, none, some}
use mathlib.Core.List.{List, [], ◌∷◌}
use native.Mathlib.Omega.{arith}
use rstream_go.Base.Tests.{if◌then◌else◌}

abbrev pub bit : Bool → ℕ
bit b = if b then 1 else 0

module _ {ℓ} {A : Type ℓ} where
  unfoldable pub get_elem? : List A → ℕ → Option A
  get_elem? [] i = none
  get_elem? (x ∷ xs) zero = some x
  get_elem? (x ∷ xs) (suc i) = get_elem? xs i

  -- A write out of bounds changes nothing.
  unfoldable pub set : List A → ℕ → A → List A
  set [] i v = []
  set (x ∷ xs) zero v = v ∷ xs
  set (x ∷ xs) (suc i) v = x ∷ set xs i v

  unfoldable pub count : (A → Bool) → List A → ℕ
  count p [] = 0
  count p (x ∷ xs) = bit (p x) + count p xs

  pub count-set :
      (p : A → Bool) (xs : List A) (i : ℕ) (x y : A)
      → get_elem? xs i ≡ some x
      → count p (set xs i y) + bit (p x) ≡ count p xs + bit (p y)
  unfolding count set get_elem?
  count-set p [] i x y h = absurd (cc)
  count-set p (z ∷ xs) zero x y h = ground arith
  count-set p (z ∷ xs) (suc i) x y h = omega (arith, count-set p xs i x y h)

  -- What stands at a place after a write.
  pub get_elem?-set_cases :
      (xs : List A) (i j : ℕ) (y x : A)
      → get_elem? (set xs i y) j ≡ some x
      → (x ≡ y) ⊎ ((i ≢ j) × (get_elem? xs j ≡ some x))
  unfolding set get_elem?
  get_elem?-set_cases [] i j y x e = absurd (cc)
  get_elem?-set_cases (z ∷ xs) zero zero y x e = inl (cc)
  get_elem?-set_cases (z ∷ xs) zero (suc j) y x e = inr ((λ p. omega arith), e)
  get_elem?-set_cases (z ∷ xs) (suc i) zero y x e = inr ((λ p. omega arith), e)
  get_elem?-set_cases (z ∷ xs) (suc i) (suc j) y x e = elim (get_elem?-set_cases xs i j y x e) [
    | inl p ↦ inl p
    | inr (ne, p) ↦ inr ((λ q. ne (omega arith)), p)
  ]

  pub bit-le-count :
      (p : A → Bool) (xs : List A) (i : ℕ) (x : A)
      → get_elem? xs i ≡ some x
      → bit (p x) ≤ count p xs
  unfolding count get_elem?
  bit-le-count p [] i x h = absurd (cc)
  bit-le-count p (z ∷ xs) zero x h = ground arith
  bit-le-count p (z ∷ xs) (suc i) x h = omega (arith, bit-le-count p xs i x h)

  pub bit-add-bit-le-count :
      (p : A → Bool) (xs : List A) (i j : ℕ) (x y : A)
      → i ≢ j
      → get_elem? xs i ≡ some x
      → get_elem? xs j ≡ some y
      → bit (p x) + bit (p y) ≤ count p xs
  unfolding count get_elem?
  bit-add-bit-le-count p [] i j x y ne h k = absurd (cc)
  bit-add-bit-le-count p (z ∷ xs) zero zero x y ne h k = absurd (ne refl)
  bit-add-bit-le-count p (z ∷ xs) zero (suc j) x y ne h k = ground (arith, bit-le-count p xs j y k)
  bit-add-bit-le-count p (z ∷ xs) (suc i) zero x y ne h k = ground (arith, bit-le-count p xs i x h)
  bit-add-bit-le-count p (z ∷ xs) (suc i) (suc j) x y ne h k =
      omega (arith, bit-add-bit-le-count p xs i j x y (λ q. ne (omega arith)) h k)

  pub get_elem?-set_self :
      (xs : List A) (i : ℕ) (x y : A) → get_elem? xs i ≡ some x → get_elem? (set xs i y) i ≡ some y
  unfolding set get_elem?
  get_elem?-set_self [] i x y h = absurd (cc)
  get_elem?-set_self (z ∷ xs) zero x y h = refl
  get_elem?-set_self (z ∷ xs) (suc i) x y h = get_elem?-set_self xs i x y h

  pub get_elem?-set_ne :
      (xs : List A) (i j : ℕ) (y : A) → i ≢ j → get_elem? (set xs i y) j ≡ get_elem? xs j
  unfolding set get_elem?
  get_elem?-set_ne [] i j y ne = refl
  get_elem?-set_ne (z ∷ xs) zero zero y ne = absurd (ne refl)
  get_elem?-set_ne (z ∷ xs) zero (suc j) y ne = refl
  get_elem?-set_ne (z ∷ xs) (suc i) zero y ne = refl
  get_elem?-set_ne (z ∷ xs) (suc i) (suc j) y ne = get_elem?-set_ne xs i j y (λ q. ne (omega arith))
