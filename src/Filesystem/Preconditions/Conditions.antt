-- ===== src/Filesystem/Preconditions/Conditions.antt =====
-- What `checkRevisionConditions` answers, against the meaning of the two headers.
use rstream_go.Base.{
  ℕ, Bool, true, false, not, ◌&&◌, ◌||◌, Option, none, some, List, [], ◌∷◌, ◌≡◌, ◌≢◌, ◌⊎◌, ◌↔◌, inl,
  inr, refl, ap, arith, if◌then◌else◌, Bool-cases, is_nil, is_some, any, Text, codes, equal,
  equal_iff, equal_refl, trim_space,
}
use rstream_go.Filesystem.Preconditions.{
  match_revision, Outcome, invalid_condition, compares_tag, decide_conditions,
  check_revision_conditions, quoted,
}
use rstream_go.Filesystem.Preconditions.Grammar.{Tag, IsTagList}
use rstream_go.Filesystem.Preconditions.Loop.{names_revision}
use rstream_go.Filesystem.Preconditions.Revision.{
  IsCondition, match_revision-star, match_revision-IsTagList, match_revision_valid,
}

-- A header as it is meant: not sent, `*`, or a list of tags.
pub data Condition : Type 0 where
  absent : Condition
  star : Condition
  tags : List Tag → Condition

abbrev pub Reads : Text → Condition → Type 0
Reads v absent = v ≡ []
Reads v star = (v ≢ []) × (trim_space v ≡ codes "*")
Reads v (tags ts) = (v ≢ []) × (trim_space v ≢ codes "*") × IsTagList (trim_space v) ts

-- RFC 9110, 13.1.1: strong comparison with the current revision, if there is one.
abbrev pub if_match : Condition → Option Text → Bool
if_match absent current = true
if_match star current = is_some current
if_match (tags ts) none = false
if_match (tags ts) (some revision) = any (λ t. not t.weak && equal (quoted t.opaque) revision) ts

-- RFC 9110, 13.1.2: weak comparison.
abbrev pub if_none_match : Condition → Option Text → Bool
if_none_match absent current = true
if_none_match star current = not (is_some current)
if_none_match (tags ts) none = true
if_none_match (tags ts) (some revision) = not (any (λ t. equal (quoted t.opaque) revision) ts)

abbrev pub has_tags : Condition → Bool
has_tags (tags _) = true
has_tags _ = false

abbrev pub answer : Bool → ℕ → Outcome
answer proceed loads = record { status = if proceed then 0 else 412; loads = loads }

-- The answer that the headers ask for. The content is hashed only for a file that is compared.
abbrev pub intended : Bool → Condition → Condition → Option Text → Outcome
intended false m n load = answer (if_match m none && if_none_match n none) 0
intended true m n load =
    if has_tags m || has_tags n
    then elim load [
      | none ↦ record { status = 503; loads = 1 }
      | some revision ↦ answer (if_match m (some revision) && if_none_match n (some revision)) 1
    ]
    else answer (if_match m (some []) && if_none_match n (some [])) 0

any-strong :
    (revision : Text) (ts : List Tag)
    → names_revision revision true false ts ≡ if_match (tags ts) (some revision)
any-strong revision [] = refl
any-strong revision (t ∷ ts) = ground (arith, any-strong revision ts)

any-weak :
    (revision : Text) (ts : List Tag)
    → names_revision revision true true ts ≡ any (λ t. equal (quoted t.opaque) revision) ts
any-weak revision [] = refl
any-weak revision (t ∷ ts) = ground (arith, any-weak revision ts)

names_revision-absent :
    (revision : Text) (w : Bool) (ts : List Tag) → names_revision revision false w ts ≡ false
names_revision-absent revision w [] = refl
names_revision-absent revision w (t ∷ ts) = names_revision-absent revision w ts

abbrev current : Bool → Text → Option Text
current present revision = if present then some revision else none

is_nil-ne : (v : Text) → v ≢ [] → is_nil v ≡ false
is_nil-ne [] h = absurd (h refl)
is_nil-ne (c ∷ v) h = refl

module _ (v revision : Text) (present : Bool) where
  Reads-valid :
      (c : Condition) (w : Bool)
      → Reads v c
      → (not (is_nil v) && not (match_revision v revision present w).1) ≡ false
  Reads-valid absent w h = rw h
  Reads-valid star w (ne, e) = rw (match_revision-star v revision present w e) (ground arith)
  Reads-valid (tags ts) w (ne, ns, g) =
      rw (match_revision-IsTagList v revision present w ns g) (ground arith)

  Reads-if_match :
      (c : Condition)
      → Reads v c
      → (not (is_nil v) && not (match_revision v revision present false).0)
        ≡ not (if_match c (current present revision))
  Reads-if_match absent h = rw h
  Reads-if_match star (ne, e) =
      rw (match_revision-star v revision present false e, is_nil-ne v ne) (ground arith)
  Reads-if_match (tags ts) (ne, ns, g) =
      rw (match_revision-IsTagList v revision present false ns g, is_nil-ne v ne)
        (ground (arith, any-strong revision ts, names_revision-absent revision false ts))

  Reads-if_none_match :
      (c : Condition)
      → Reads v c
      → (not (is_nil v) && (match_revision v revision present true).0)
        ≡ not (if_none_match c (current present revision))
  Reads-if_none_match absent h = rw h
  Reads-if_none_match star (ne, e) =
      rw (match_revision-star v revision present true e, is_nil-ne v ne) (ground arith)
  Reads-if_none_match (tags ts) (ne, ns, g) =
      rw (match_revision-IsTagList v revision present true ns g, is_nil-ne v ne)
        (ground (arith, any-weak revision ts, names_revision-absent revision true ts))

compares_tag-Reads : (v : Text) (c : Condition) → Reads v c → compares_tag v ≡ has_tags c
unfolding compares_tag
compares_tag-Reads v absent h = rw h
compares_tag-Reads v star (ne, e) = rw (e, equal_refl (codes "*")) (ground arith)
compares_tag-Reads v (tags ts) (ne, ns, g) =
    ground (arith, is_nil-ne v ne, equal_iff (trim_space v) (codes "*"))

decide-Reads :
    (present : Bool) (match none_match revision : Text) (m n : Condition)
    → Reads match m
    → Reads none_match n
    → decide_conditions present match none_match revision ≡ (
        if if_match m (current present revision) && if_none_match n (current present revision)
        then 0
        else 412)
unfolding decide_conditions
decide-Reads present match none_match revision m n hm hn =
    rw
      (
        Reads-valid match revision present m false hm,
        Reads-if_match match revision present m hm,
        Reads-valid none_match revision present n true hn,
        Reads-if_none_match none_match revision present n hn,
      )
      (ground arith)

-- Where each header is `*`, a list of entity tags or not sent, the status is 0 if both ask to go
-- on and 412 if not, by strong comparison for `If-Match` and weak for `If-None-Match`, or 503 if
-- the content had to be hashed and was not. It is hashed once if there is a file and a list of tags.
pub check_revision_conditions-Reads :
    (present : Bool) (match none_match : Text) (m n : Condition) (load : Option Text)
    → Reads match m
    → Reads none_match n
    → check_revision_conditions present match none_match load ≡ intended present m n load
unfolding check_revision_conditions invalid_condition
check_revision_conditions-Reads false match none_match m n load hm hn =
    rw (Reads-valid match [] false m true hm, Reads-valid none_match [] false n true hn)
      (ground (arith, decide-Reads false match none_match [] m n hm hn))
check_revision_conditions-Reads true match none_match m n none hm hn =
    rw
      (
        Reads-valid match [] true m true hm,
        Reads-valid none_match [] true n true hn,
        compares_tag-Reads match m hm,
        compares_tag-Reads none_match n hn,
      )
      (ground (arith, decide-Reads true match none_match [] m n hm hn))
check_revision_conditions-Reads true match none_match m n (some revision) hm hn =
    rw
      (
        Reads-valid match [] true m true hm,
        Reads-valid none_match [] true n true hn,
        compares_tag-Reads match m hm,
        compares_tag-Reads none_match n hn,
      )
      (ground (
        arith,
        decide-Reads true match none_match [] m n hm hn,
        decide-Reads true match none_match revision m n hm hn,
      ))

IsCondition-Reads : (v : Text) → v ≢ [] → IsCondition v → (c : Condition) × Reads v c
IsCondition-Reads v ne (inl e) = (star, (ne, e))
IsCondition-Reads v ne (inr (ts, g)) = elim (Bool-cases (equal (trim_space v) (codes "*"))) [
  | inl e ↦ (star, (ne, (equal_iff (trim_space v) (codes "*")).0 e))
  | inr e ↦ (tags ts, (ne, (λ p. cc (rw p at e, equal_refl (codes "*"))), g))
]

-- A header that was sent and is neither `*` nor a list of entity tags.
abbrev pub IsMalformed : Text → Type 0
IsMalformed v = (v ≢ []) × ¬ IsCondition v

Reads-cases : (v : Text) → IsMalformed v ⊎ ((c : Condition) × Reads v c)
Reads-cases [] = inr (absent, refl)
Reads-cases (c ∷ v) = elim (Bool-cases (match_revision (c ∷ v) [] true true).1) [
  | inl e ↦
      inr (IsCondition-Reads (c ∷ v) (λ p. cc) ((match_revision_valid (c ∷ v) [] true true).0 e))
  | inr e ↦ inl ((λ p. cc), (λ g. cc (rw e at ((match_revision_valid (c ∷ v) [] true true).1 g))))
]

invalid_condition-IsMalformed :
    (present : Bool) (v : Text) → IsMalformed v → invalid_condition present v ≡ true
unfolding invalid_condition
invalid_condition-IsMalformed present v (ne, bad) =
    elim (Bool-cases (match_revision v [] present true).1) [
      | inl e ↦ absurd (bad ((match_revision_valid v [] present true).0 e))
      | inr e ↦ rw (is_nil-ne v ne, e)
    ]

intended-ne_400 :
    (present : Bool) (m n : Condition) (load : Option Text)
    → (intended present m n load).status ≢ 400
intended-ne_400 false m n load = ground arith
intended-ne_400 true m n load = ground arith

module _ (present : Bool) (match none_match : Text) (load : Option Text) where
  refused :
      IsMalformed match ⊎ IsMalformed none_match
      → check_revision_conditions present match none_match load ≡ record { status = 400; loads = 0 }
  unfolding check_revision_conditions
  refused (inl bad) = rw (invalid_condition-IsMalformed present match bad)
  refused (inr bad) = ground (arith, invalid_condition-IsMalformed present none_match bad)

  IsMalformed-of_400 :
      (check_revision_conditions present match none_match load).status ≡ 400
      → IsMalformed match ⊎ IsMalformed none_match
  IsMalformed-of_400 h = elim (Reads-cases match) [
    | inl bad ↦ inl bad
    | inr (m, hm) ↦ elim (Reads-cases none_match) [
      | inl bad ↦ inr bad
      | inr (n, hn) ↦
          let answered = check_revision_conditions-Reads present match none_match m n load hm hn in
          absurd (intended-ne_400 present m n load (rw answered at h))
    ]
  ]

-- The request is refused as malformed exactly when a header was sent that is neither `*` nor a list
-- of entity tags, whatever the file is; nothing is hashed for such a request.
pub check_revision_conditions-IsMalformed :
    (present : Bool) (match none_match : Text) (load : Option Text)
    → let outcome = check_revision_conditions present match none_match load in
      ((outcome.status ≡ 400) ↔ IsMalformed match ⊎ IsMalformed none_match)
      × (outcome.status ≡ 400 → outcome.loads ≡ 0)
check_revision_conditions-IsMalformed present match none_match load = (
  (
    IsMalformed-of_400 present match none_match load,
    λ bad. ap (λ o. o.status) (refused present match none_match load bad),
  ),
  λ h.
      ap (λ o. o.loads)
        (refused present match none_match load
          (IsMalformed-of_400 present match none_match load h)),
)
