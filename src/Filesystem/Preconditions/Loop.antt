-- ===== src/Filesystem/Preconditions/Loop.antt =====
-- The loop of `matchRevision`, run over a list of entity tags.

use rstream_go.Base.{
  ℕ, zero, suc, ◌<◌, Bool, true, false, not, ◌&&◌, ◌||◌, List, [], ◌∷◌, ◌++◌, ◌≡◌, ◌≢◌, inl, inr,
  refl, ap, ◌∙◌, arith, ◌==◌, Bool-cases, Option-cases, length, is_nil, any, Text, equal,
  trim_space,
}
use rstream_go.Filesystem.Preconditions.{
  quote, scan_tag, quoted, Next, ends, malformed, more, after_comma, next_tag, match_loop,
}
use rstream_go.Filesystem.Preconditions.Grammar.{
  Tag, IsOpaque, print, IsTagList, last, next, scan_tag-print, scan_tag-eq_some, length-trim_space,
  length-print,
}

-- Some tag of the list is the revision, and may be compared under the header's rule.
abbrev pub names_revision : Text → Bool → Bool → List Tag → Bool
names_revision revision present weak_allowed =
    any (λ t. present && (not t.weak || weak_allowed) && equal (quoted t.opaque) revision)

is_nil-print : (t : Tag) (rest : Text) → is_nil (print t rest) ≡ false
is_nil-print t rest = ground arith

print-cons : (t : Tag) (rest : Text) → (c : ℕ) × (s : Text) × (print t rest ≡ c ∷ s)
print-cons t rest = elim (Bool-cases t.weak) [
  | inl e ↦ (b'W', b'/' ∷ quote ∷ (t.opaque ++ quote ∷ rest), ground arith)
  | inr e ↦ (quote, t.opaque ++ quote ∷ rest, ground arith)
]

IsTagList-cons : {v : Text} {ts : List Tag} → IsTagList v ts → (c : ℕ) × (s : Text) × (v ≡ c ∷ s)
IsTagList-cons (last t rest e o l) = let (c, s, p) = print-cons t rest in (c, s, e ∙ p)
IsTagList-cons (next t rest s' e o l g) = let (c, s, p) = print-cons t rest in (c, s, e ∙ p)

next_tag-comma : (s v : Text) (c : ℕ) → trim_space s ≡ c ∷ v → next_tag (b',' ∷ s) ≡ more c v
unfolding next_tag
next_tag-comma s v c e = rw (e, after_comma)

after_comma-eq_more : (v s : Text) (c : ℕ) → after_comma v ≡ more c s → v ≡ c ∷ s
unfolding after_comma
after_comma-eq_more [] s c h = cc
after_comma-eq_more (d ∷ v) s c h = cc

after_comma-ne_ends : (v : Text) → after_comma v ≢ ends
unfolding after_comma
after_comma-ne_ends [] h = cc
after_comma-ne_ends (c ∷ v) h = cc

-- What each answer of `next_tag` says of the text behind the tag.
abbrev Separates : Text → Next → Type 0
Separates v ends = v ≡ []
Separates v malformed = Unit
Separates v (more c s) = (s' : Text) × (v ≡ b',' ∷ s') × (trim_space s' ≡ c ∷ s)

next_tag-Separates : (v : Text) {r : Next} → next_tag v ≡ r → Separates v r
unfolding next_tag
next_tag-Separates [] {r = ends} h = refl
next_tag-Separates [] {r = malformed} h = tt
next_tag-Separates [] {r = more c s} h = absurd (cc)
next_tag-Separates (c ∷ v) {r = malformed} h = tt
next_tag-Separates (c ∷ v) {r = ends} h = elim (Bool-cases (c == b',')) [
  | inl e ↦ absurd (after_comma-ne_ends (trim_space v) (rw e at h))
  | inr e ↦ ground arith
]
next_tag-Separates (c ∷ v) {r = more d s} h = elim (Bool-cases (c == b',')) [
  | inl e ↦ (v, ground arith, after_comma-eq_more (trim_space v) s d (rw e at h))
  | inr e ↦ absurd (ground arith)
]

module _ (revision : Text) (present weak_allowed : Bool) where
  abbrev meets : Tag → Bool
  meets t = present && (not t.weak || weak_allowed) && equal (quoted t.opaque) revision

  abbrev after_turn : ℕ → Bool → Next → Bool × Bool
  after_turn fuel matched ends = (matched, true)
  after_turn fuel matched malformed = (false, false)
  after_turn fuel matched (more c s) = match_loop fuel revision present weak_allowed (c ∷ s) matched

  match_loop-print :
      (fuel : ℕ) (t : Tag) (rest : Text) (matched : Bool)
      → IsOpaque t.opaque
      → match_loop (suc fuel) revision present weak_allowed (print t rest) matched
        ≡ after_turn fuel (matched || meets t) (next_tag (trim_space rest))
  unfolding match_loop
  match_loop-print fuel t rest matched o = rw (is_nil-print t rest, scan_tag-print t rest o)

  pub match_loop-IsTagList :
      (fuel : ℕ) (v : Text) {ts : List Tag} (matched : Bool)
      → IsTagList v ts
      → length v < fuel
      → match_loop fuel revision present weak_allowed v matched
        ≡ (matched || names_revision revision present weak_allowed ts, true)
  match_loop-IsTagList zero v matched g h = absurd (omega arith)
  match_loop-IsTagList (suc fuel) v matched (last t rest e o l) h =
      rw e (match_loop-print fuel t rest matched o ∙ rw l (unfold next_tag in ground arith))
  match_loop-IsTagList (suc fuel) v matched (next {ts = ts} t rest s e o l g) h =
      let (c, s', p) = IsTagList-cons g in
      let shorter : length (c ∷ s') < fuel = omega (
        arith,
        length-trim_space rest,
        length-trim_space s,
        length-print t rest,
        ap length e,
        ap length l,
        ap length p,
      ) in
      let ih = match_loop-IsTagList fuel (c ∷ s') (matched || meets t) (rw p at g) shorter in
      rw e (
        match_loop-print fuel t rest matched o
        ∙ rw (l, next_tag-comma s s' c p) (ih ∙ ground arith))

  valid_turn :
      (fuel : ℕ) (v : Text) (t : Tag) (rest : Text) (matched : Bool) (r : Next)
      → v ≡ print t rest
      → IsOpaque t.opaque
      → next_tag (trim_space rest) ≡ r
      → (after_turn fuel matched r).1 ≡ true
      → ((c : ℕ) (s : Text)
          → (match_loop fuel revision present weak_allowed (c ∷ s) matched).1 ≡ true
          → (ts : List Tag) × IsTagList (c ∷ s) ts)
      → (ts : List Tag) × IsTagList v ts
  valid_turn fuel v t rest matched ends e o n h ih =
      (t ∷ [], last t rest e o (next_tag-Separates (trim_space rest) n))
  valid_turn fuel v t rest matched malformed e o n h ih = absurd (cc)
  valid_turn fuel v t rest matched (more c s) e o n h ih =
      let (ts, g) = ih c s h in
      let (s', comma, p) = next_tag-Separates (trim_space rest) n in
      (t ∷ ts, next t rest s' e o comma (rw p g))

  pub match_loop-valid :
      (fuel : ℕ) (v : Text) (matched : Bool)
      → (match_loop fuel revision present weak_allowed v matched).1 ≡ true
      → (ts : List Tag) × IsTagList v ts
  match_loop-valid zero v matched h = unfold match_loop in absurd (cc)
  match_loop-valid (suc fuel) v matched h = elim (Bool-cases (is_nil v)) [
    | inl e ↦ absurd (unfold match_loop in ground arith)
    | inr e ↦ elim (Option-cases (scan_tag v)) [
      | inl none_left ↦ absurd (unfold match_loop in ground arith)
      | inr ((w, o, rest), found) ↦
          let t : Tag = record { weak = w; opaque = o } in
          let (printed, ok) = scan_tag-eq_some v found in
          valid_turn fuel v t rest (matched || meets t) (next_tag (trim_space rest)) printed ok refl
            (rw (printed, match_loop-print fuel t rest matched ok) at h)
            (λ c s. match_loop-valid fuel (c ∷ s) (matched || meets t))
    ]
  ]
