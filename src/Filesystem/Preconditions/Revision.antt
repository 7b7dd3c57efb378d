-- ===== src/Filesystem/Preconditions/Revision.antt =====
-- What `matchRevision` decides.
use rstream_go.Base.{
  suc, Bool, true, false, List, ◌≡◌, ◌≢◌, ◌⊎◌, ◌↔◌, inl, inr, refl, ◌∙◌, arith, Bool-cases, length,
  Text, codes, equal, equal_iff, equal_refl, trim_space,
}
use rstream_go.Filesystem.Preconditions.{match_loop, match_revision}
use rstream_go.Filesystem.Preconditions.Grammar.{Tag, IsTagList}
use rstream_go.Filesystem.Preconditions.Loop.{
  names_revision, match_loop-IsTagList, match_loop-valid,
}

-- The header is well formed: `*`, or a list of entity tags.
abbrev pub IsCondition : Text → Type 0
IsCondition value =
    (trim_space value ≡ codes "*") ⊎ ((ts : List Tag) × IsTagList (trim_space value) ts)

module _ (value revision : Text) (present weak_allowed : Bool) where
  pub match_revision-star :
      trim_space value ≡ codes "*"
      → match_revision value revision present weak_allowed ≡ (present, true)
  unfolding match_revision equal
  match_revision-star e = rw e refl

  pub match_revision-loop :
      trim_space value ≢ codes "*"
      → match_revision value revision present weak_allowed
        ≡ match_loop
            (suc (length (trim_space value)))
            revision
            present
            weak_allowed
            (trim_space value)
            false
  unfolding match_revision
  match_revision-loop ne = elim (Bool-cases (equal (trim_space value) (codes "*"))) [
    | inl e ↦ absurd (ne ((equal_iff (trim_space value) (codes "*")).0 e))
    | inr e ↦ rw e refl
  ]

  pub match_revision-IsTagList :
      {ts : List Tag}
      → trim_space value ≢ codes "*"
      → IsTagList (trim_space value) ts
      → match_revision value revision present weak_allowed
        ≡ (names_revision revision present weak_allowed ts, true)
  match_revision-IsTagList ne g =
      match_revision-loop ne
      ∙ match_loop-IsTagList revision present weak_allowed _ (trim_space value) false g
          (omega arith)

  valid_of_IsCondition :
      IsCondition value → (match_revision value revision present weak_allowed).1 ≡ true
  valid_of_IsCondition (inl e) = rw (match_revision-star e)
  valid_of_IsCondition (inr (ts, g)) = elim (Bool-cases (equal (trim_space value) (codes "*"))) [
    | inl e ↦ rw (match_revision-star ((equal_iff (trim_space value) (codes "*")).0 e))
    | inr e ↦ rw (match_revision-IsTagList (λ p. cc (rw p at e, equal_refl (codes "*"))) g)
  ]

  IsCondition-of_valid :
      (match_revision value revision present weak_allowed).1 ≡ true → IsCondition value
  IsCondition-of_valid h = elim (Bool-cases (equal (trim_space value) (codes "*"))) [
    | inl e ↦ inl ((equal_iff (trim_space value) (codes "*")).0 e)
    | inr e ↦
        let ne : trim_space value ≢ codes "*" = λ p. cc (rw p at e, equal_refl (codes "*")) in
        inr (
          match_loop-valid revision present weak_allowed _ (trim_space value) false
            (rw (match_revision-loop ne) at h))
  ]

  -- The second result says exactly whether the header is well formed, whatever the revision is.
  pub match_revision_valid :
      ((match_revision value revision present weak_allowed).1 ≡ true) ↔ IsCondition value
  match_revision_valid = (IsCondition-of_valid, valid_of_IsCondition)
