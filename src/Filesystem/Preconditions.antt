-- ===== src/Filesystem/Preconditions.antt =====
-- filesystem/preconditions.go: the conditional headers `If-Match` and `If-None-Match`.
-- `matchRevision` is `match_revision`, `checkRevisionConditions` is `check_revision_conditions`. The
-- callback that hashes the content is an argument, and the number of its calls is part of the result.
pub mod Grammar
mod Loop
pub mod Revision
pub mod Conditions
pub mod Tests
use rstream_go.Base.{
  ℕ, zero, suc, ◌+◌, Bool, true, false, not, ◌&&◌, ◌||◌, Option, none, some, List, [], ◌∷◌, ◌++◌,
  if◌then◌else◌, ltb, ◌==◌, length, is_nil, all, Text, codes, equal, trim_space,
}

abbrev pub quote : ℕ
quote = 0x22

-- `strings.IndexByte(value[1:], '"')`: the text before the first quote, and the text behind it.
pub break_quote : Text → Option (Text × Text)
break_quote [] = none
break_quote (c ∷ s) =
    let rest = break_quote s in
    if c == quote then some ([], s) else elim rest [ none ↦ none | some (a, b) ↦ some (c ∷ a, b) ]

-- The bytes that an entity tag may hold.
pub tag_byte : ℕ → Bool
tag_byte c = not (ltb c 0x21 || c == 0x7f)

-- One turn of the loop up to its first `TrimSpace`: weak, the opaque text, what follows; `none` is an
-- early return.
pub scan_quoted : Bool → Text → Option (Bool × Text × Text)
unfolding break_quote tag_byte
scan_quoted weak [] = none
scan_quoted weak (c ∷ s) =
    if c == quote
    then elim (break_quote s) [
      | none ↦ none
      | some (opaque, rest) ↦ if all tag_byte opaque then some (weak, opaque, rest) else none
    ]
    else none

unfoldable pub scan_tag : Text → Option (Bool × Text × Text)
unfolding scan_quoted
scan_tag (c ∷ d ∷ s) =
    if c == b'W' && d == b'/' then scan_quoted true s else scan_quoted false (c ∷ d ∷ s)
scan_tag s = scan_quoted false s

abbrev pub quoted : Text → Text
quoted opaque = quote ∷ (opaque ++ quote ∷ [])

-- What stands behind a tag: nothing, no comma or nothing behind the comma, or the next tag.
pub data Next : Type 0 where
  ends : Next
  malformed : Next
  more : ℕ → Text → Next

pub after_comma : Text → Next
after_comma [] = malformed
after_comma (c ∷ s) = more c s

pub next_tag : Text → Next
unfolding after_comma
next_tag [] = ends
next_tag (c ∷ s) = if c == b',' then after_comma (trim_space s) else malformed

-- The loop `for value != ""`. The fuel bounds the turns; at its end the loop answers as when the
-- text has run out. `matched` and validity are the two results.
unfoldable pub match_loop : ℕ → Text → Bool → Bool → Text → Bool → Bool × Bool
unfolding next_tag
match_loop zero revision present weak_allowed value matched = (false, false)
match_loop (suc fuel) revision present weak_allowed value matched =
    if is_nil value then (false, false) else elim (scan_tag value) [
      | none ↦ (false, false)
      | some (weak, opaque, rest) ↦
          let matched' =
            matched || present && (not weak || weak_allowed) && equal (quoted opaque) revision in
          elim (next_tag (trim_space rest)) [
            | ends ↦ (matched', true)
            | malformed ↦ (false, false)
            | more c s ↦ match_loop fuel revision present weak_allowed (c ∷ s) matched'
          ]
    ]

unfoldable pub match_revision : Text → Text → Bool → Bool → Bool × Bool
unfolding match_loop
match_revision value revision present weak_allowed =
    let value' = trim_space value in
    if equal value' (codes "*")
    then (present, true)
    else match_loop (suc (length value')) revision present weak_allowed value' false

-- The status of the answer, 0 to go on, and how often the content was hashed.
pub record Outcome : Type 0 where
  pub status : ℕ
  pub loads : ℕ

-- The first loop over both conditions: some condition is not valid.
pub invalid_condition : Bool → Text → Bool
invalid_condition present condition =
    not (is_nil condition) && not (match_revision condition [] present true).1

pub compares_tag : Text → Bool
compares_tag condition = not (is_nil condition) && not (equal (trim_space condition) (codes "*"))

-- The two tests once the revision is known.
unfoldable pub decide_conditions : Bool → Text → Text → Text → ℕ
decide_conditions present match none_match revision =
    let (matched, valid) = match_revision match revision present false in
    let (excluded, valid') = match_revision none_match revision present true in
    if not (is_nil match) && not valid
    then 400
    else if not (is_nil match) && not matched
    then 412
    else if not (is_nil none_match) && not valid'
    then 400
    else if not (is_nil none_match) && excluded
    then 412
    else 0

unfoldable pub check_revision_conditions : Bool → Text → Text → Option Text → Outcome
unfolding invalid_condition compares_tag
check_revision_conditions present match none_match load_revision =
    if invalid_condition present match || invalid_condition present none_match
    then record { status = 400; loads = 0 }
    else if present && (compares_tag match || compares_tag none_match)
    then elim load_revision [
      | none ↦ record { status = 503; loads = 1 }
      | some revision ↦ record {
        status = decide_conditions present match none_match revision;
        loads = 1;
      }
    ]
    else record { status = decide_conditions present match none_match []; loads = 0 }

-- `checkConditions`: the result of `Stat` is `some true` for a file, `some false` for none there.
unfoldable pub check_conditions : Option Bool → Text → Text → Option Text → Outcome
unfolding check_revision_conditions
check_conditions found match none_match load_revision =
    if is_nil match && is_nil none_match then record { status = 0; loads = 0 } else elim found [
      | none ↦ record { status = 403; loads = 0 }
      | some present ↦ check_revision_conditions present match none_match load_revision
    ]
