-- ===== src/Dns/Rounds.antt =====
-- dns_resolution.go: the last loop, over both families by index, takes them in turns.
use rstream_go.Base.{
  ℕ, zero, suc, ◌≤◌, ◌≡◌, refl, ◌∙◌, ap, arith, List, [], ◌∷◌, length, get_elem?, Text,
}
use rstream_go.Dns.{Families, entry_at, rounds, max, interleave}

-- In turns, and what is left of the longer list.
unfoldable pub alternate : List Text → List Text → List Text
alternate [] ys = ys
alternate (x ∷ xs) [] = x ∷ xs
alternate (x ∷ xs) (y ∷ ys) = x ∷ y ∷ alternate xs ys

alternate_nil : (xs : List Text) → alternate xs [] ≡ xs
unfolding alternate
alternate_nil [] = refl
alternate_nil (x ∷ xs) = refl

rounds_nil : (n i : ℕ) → rounds n i [] [] ≡ []
unfolding rounds get_elem?
rounds_nil zero i = refl
rounds_nil (suc n) i = rounds_nil n (suc i)

abbrev tail : List Text → List Text
tail [] = []
tail (_ ∷ xs) = xs

entry_at-suc : (i : ℕ) (xs : List Text) → entry_at (suc i) xs ≡ entry_at i (tail xs)
unfolding get_elem?
entry_at-suc i [] = refl
entry_at-suc i (x ∷ xs) = refl

-- By index, the rounds from 1 on are those of the tails.
rounds-tail :
    (n i : ℕ) (xs ys : List Text) → rounds n (suc i) xs ys ≡ rounds n i (tail xs) (tail ys)
unfolding rounds
rounds-tail zero i xs ys = refl
rounds-tail (suc n) i xs ys =
    rw (entry_at-suc i xs, entry_at-suc i ys, rounds-tail n (suc i) xs ys) refl

rounds-alternate :
    (n : ℕ) (xs ys : List Text) → length xs ≤ n → length ys ≤ n → rounds n 0 xs ys ≡ alternate xs ys
unfolding rounds alternate get_elem?
rounds-alternate n [] [] h k = rounds_nil n 0
rounds-alternate zero (x ∷ xs) ys h k = absurd (omega (arith, h))
rounds-alternate zero [] (y ∷ ys) h k = absurd (omega (arith, k))
rounds-alternate (suc n) [] (y ∷ ys) h k =
    ap (λ zs. y ∷ zs)
      (rounds-tail n 0 [] (y ∷ ys) ∙ rounds-alternate n [] ys (omega arith) (omega (arith, k)))
rounds-alternate (suc n) (x ∷ xs) [] h k =
    ap (λ zs. x ∷ zs)
      (rounds-tail n 0 (x ∷ xs) []
        ∙ rounds-alternate n xs [] (omega (arith, h)) (omega arith)
        ∙ alternate_nil xs)
rounds-alternate (suc n) (x ∷ xs) (y ∷ ys) h k =
    ap (λ zs. x ∷ y ∷ zs)
      (rounds-tail n 0 (x ∷ xs) (y ∷ ys)
        ∙ rounds-alternate n xs ys (omega (arith, h)) (omega (arith, k)))

pub interleave-alternate : (f : Families) → interleave f ≡ alternate f.same f.other
unfolding interleave
interleave-alternate f =
    rounds-alternate (max (length f.same) (length f.other)) f.same f.other (ground arith)
      (ground arith)
