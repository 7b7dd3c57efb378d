-- ===== src/Base/Indexed.antt =====
-- Maps whose keys are numbers, as lists of pairs. A key that is written again replaces its entry.
use Prim.Native.Nat.{ℕ, ◌<◌}
use mathlib.Core.Path.{◌≡◌, refl}
use mathlib.Core.Option.{Option, none, some}
use mathlib.Core.List.{List, [], ◌∷◌, ◌++◌}
use native.Mathlib.Omega.{arith}
use rstream_go.Base.Tests.{if◌then◌else◌, ◌==◌, ==_iff}
use rstream_go.Base.Lists.{All}

module _ {V : Type 0} where
  unfoldable pub value_at : ℕ → List (ℕ × V) → Option V
  value_at k [] = none
  value_at k ((j, w) ∷ m) = let rest = value_at k m in if j == k then some w else rest

  unfoldable pub put : ℕ → V → List (ℕ × V) → List (ℕ × V)
  put k v [] = (k, v) ∷ []
  put k v ((j, w) ∷ m) = let rest = put k v m in if j == k then (k, v) ∷ m else (j, w) ∷ rest

  unfoldable pub drop_key : ℕ → List (ℕ × V) → List (ℕ × V)
  drop_key k [] = []
  drop_key k ((j, w) ∷ m) = let rest = drop_key k m in if j == k then rest else (j, w) ∷ rest

  pub value_at-put :
      (k j : ℕ) (v : V) (m : List (ℕ × V))
      → value_at j (put k v m) ≡ (if k == j then some v else value_at j m)
  unfolding value_at put
  value_at-put k j v [] = ground arith
  value_at-put k j v ((i, w) ∷ m) =
      ground (arith, value_at-put k j v m, ==_iff i k, ==_iff k j, ==_iff i j)

  pub value_at-drop_key :
      (k j : ℕ) (m : List (ℕ × V))
      → value_at j (drop_key k m) ≡ (if k == j then none else value_at j m)
  unfolding value_at drop_key
  value_at-drop_key k j [] = ground arith
  value_at-drop_key k j ((i, w) ∷ m) =
      ground (arith, value_at-drop_key k j m, ==_iff i k, ==_iff k j, ==_iff i j)

  -- Every key is below `n`.
  abbrev pub KeysBelow : ℕ → List (ℕ × V) → Type 0
  KeysBelow n m = All (λ e. e.0 < n) m

  pub put_fresh :
      (k : ℕ) (v : V) (m : List (ℕ × V)) → KeysBelow k m → put k v m ≡ m ++ ((k, v) ∷ [])
  unfolding put
  put_fresh k v [] h = refl
  put_fresh k v ((j, w) ∷ m) (lt, h) = ground (arith, lt, put_fresh k v m h)
