-- ===== src/Filesystem/Preconditions/Tests.antt =====
-- Runs of the conditional headers.
use rstream_go.Base.{
  true, false, none, some, List, [], ◌∷◌, ◌≡◌, ◌⊎◌, ◌↔◌, refl, Text, codes, equal, trim_space,
}
use rstream_go.Filesystem.Preconditions.{
  match_revision, scan_tag, tag_byte, check_revision_conditions,
}
use rstream_go.Filesystem.Preconditions.Grammar.{Tag, last, next}
use rstream_go.Filesystem.Preconditions.Revision.{IsCondition, match_revision_valid}
use rstream_go.Filesystem.Preconditions.Conditions.{
  tags, absent, Reads, IsMalformed, intended, check_revision_conditions-Reads,
  check_revision_conditions-IsMalformed,
}

abbrev header : Text
header = codes " W/\"a1\" , \"b2\""

abbrev header_tags : List Tag
header_tags =
    record { weak = true; opaque = codes "a1" } ∷ record { weak = false; opaque = codes "b2" } ∷ []

match_strong : match_revision header (codes "\"b2\"") true false ≡ (true, true)
unfolding match_revision scan_tag equal trim_space
match_strong = refl

match_weak : match_revision header (codes "\"a1\"") true false ≡ (false, true)
unfolding match_revision scan_tag equal trim_space
match_weak = refl

no_comma : match_revision (codes "\"a1\" \"b2\"") (codes "\"a1\"") true true ≡ (false, false)
unfolding match_revision scan_tag equal trim_space
no_comma = refl

header-Reads : Reads header (tags header_tags)
unfolding trim_space tag_byte
header-Reads = (
  (λ e. cc),
  (λ e. cc),
  next _ (codes " , \"b2\"") (codes " \"b2\"") refl refl refl (last _ [] refl refl refl),
)

check_revision_conditions-Reads_example :
    check_revision_conditions true header [] (some (codes "\"a1\""))
    ≡ intended true (tags header_tags) absent (some (codes "\"a1\""))
check_revision_conditions-Reads_example =
    check_revision_conditions-Reads true header [] (tags header_tags) absent (some (codes "\"a1\""))
      header-Reads refl

match_revision_valid_example :
    ((match_revision header (codes "\"a1\"") true true).1 ≡ true) ↔ IsCondition header
match_revision_valid_example = match_revision_valid header (codes "\"a1\"") true true

check_revision_conditions-IsMalformed_example :
    let outcome = check_revision_conditions true (codes "x") [] none in
    ((outcome.status ≡ 400) ↔ IsMalformed (codes "x") ⊎ IsMalformed [])
    × (outcome.status ≡ 400 → outcome.loads ≡ 0)
check_revision_conditions-IsMalformed_example =
    check_revision_conditions-IsMalformed true (codes "x") [] none
