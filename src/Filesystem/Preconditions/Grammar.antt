-- ===== src/Filesystem/Preconditions/Grammar.antt =====
-- The header grammar that `matchRevision` accepts: `*`, or entity tags with commas between them.

use rstream_go.Base.{
  ◌≤◌, ◌<◌, Bool, true, false, not, ◌&&◌, some, List, [], ◌∷◌, ◌++◌, ◌≡◌, inl, inr, refl, arith,
  if◌then◌else◌, ◌==◌, Bool-cases, Option-cases, length, length-append, all, Text, trim_space,
  trim_right, length-trim_left, length-trim_right,
}
use rstream_go.Filesystem.Preconditions.{quote, break_quote, tag_byte, scan_quoted, scan_tag}

pub record Tag : Type 0 where
  pub weak : Bool
  pub opaque : Text

abbrev pub IsOpaque : Text → Type 0
IsOpaque o = all (λ c. tag_byte c && not (c == quote)) o ≡ true

-- The tag in front of what follows it.
abbrev pub print : Tag → Text → Text
print t rest =
    let body = quote ∷ (t.opaque ++ quote ∷ rest) in if t.weak then b'W' ∷ b'/' ∷ body else body

-- A list of tags with optional space round each comma, and none at its front.
pub data IsTagList : Text → List Tag → Type 0 where
  last :
      {v : Text} (t : Tag) (rest : Text)
      → v ≡ print t rest
      → IsOpaque t.opaque
      → trim_space rest ≡ []
      → IsTagList v (t ∷ [])
  next :
      {v : Text} {ts : List Tag} (t : Tag) (rest s : Text)
      → v ≡ print t rest
      → IsOpaque t.opaque
      → trim_space rest ≡ b',' ∷ s
      → IsTagList (trim_space s) ts
      → IsTagList v (t ∷ ts)

break_quote-append : (o rest : Text) → IsOpaque o → break_quote (o ++ quote ∷ rest) ≡ some (o, rest)
unfolding break_quote
break_quote-append [] rest h = refl
break_quote-append (c ∷ o) rest h = ground (arith, break_quote-append o rest)

break_quote-eq_some :
    (s : Text) {o rest : Text}
    → break_quote s ≡ some (o, rest)
    → (s ≡ o ++ quote ∷ rest) × (all tag_byte o ≡ true → IsOpaque o)
unfolding break_quote
break_quote-eq_some [] h = cc
break_quote-eq_some (c ∷ s) h = elim (Option-cases (break_quote s)) [
  | inl e ↦ ground arith
  | inr ((o', rest'), e) ↦ let ih = break_quote-eq_some s e in ground (arith, ih)
]

opaque-tag_bytes : (o : Text) → IsOpaque o → all tag_byte o ≡ true
opaque-tag_bytes [] h = refl
opaque-tag_bytes (c ∷ o) h = ground (arith, opaque-tag_bytes o)

pub scan_tag-print :
    (t : Tag) (rest : Text)
    → IsOpaque t.opaque
    → scan_tag (print t rest) ≡ some (t.weak, t.opaque, rest)
unfolding scan_tag
scan_tag-print t rest h =
    ground (arith, break_quote-append t.opaque rest h, opaque-tag_bytes t.opaque h)

scan_quoted-eq_some :
    (weak : Bool) (v : Text) {w : Bool} {o rest : Text}
    → scan_quoted weak v ≡ some (w, o, rest)
    → (w ≡ weak) × (v ≡ quote ∷ (o ++ quote ∷ rest)) × IsOpaque o
unfolding scan_quoted
scan_quoted-eq_some weak [] h = cc
scan_quoted-eq_some weak (c ∷ s) h = elim (Option-cases (break_quote s)) [
  | inl e ↦ ground arith
  | inr ((o', rest'), e) ↦ let found = break_quote-eq_some s e in ground (arith, found)
]

pub scan_tag-eq_some :
    (v : Text) {w : Bool} {o rest : Text}
    → scan_tag v ≡ some (w, o, rest)
    → (v ≡ print (record { weak = w; opaque = o }) rest) × IsOpaque o
unfolding scan_tag
scan_tag-eq_some [] h = cc
scan_tag-eq_some (c ∷ []) h = ground (arith, scan_quoted-eq_some false (c ∷ []) h)
scan_tag-eq_some (c ∷ d ∷ s) h = elim (Bool-cases (c == b'W' && d == b'/')) [
  | inl e ↦ ground (arith, scan_quoted-eq_some true s (rw e at h))
  | inr e ↦ ground (arith, scan_quoted-eq_some false (c ∷ d ∷ s) (rw e at h))
]

pub length-trim_space : (s : Text) → length (trim_space s) ≤ length s
unfolding trim_space
length-trim_space s = omega (arith, length-trim_left (trim_right s), length-trim_right s)

pub length-print : (t : Tag) (rest : Text) → length rest < length (print t rest)
length-print t rest = ground (arith, length-append t.opaque (quote ∷ rest))
