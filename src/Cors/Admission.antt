-- ===== src/Cors/Admission.antt =====
-- httpcors/cors.go: which requests `Prepare` lets go on.
use rstream_go.Base.{
  Bool, true, false, ◌&&◌, ◌||◌, none, some, List, [], ◌∷◌, ◌≡◌, ◌↔◌, ◌⊎◌, inl, inr, refl, ap,
  arith, is_some, Bool-cases, Option-cases, Text, codes, equal, equal_iff, equal_refl, lookup, ◌∙◌,
}
use rstream_go.Cors.{Runes, normalize_origin}
use rstream_go.Cors.Response.{Header, values, Policy, Writer}
use rstream_go.Cors.Origins.{
  Request, is_admitted, origin_key, target_text, is_preflight, decide, prepare,
}

module _ (runes : Runes) where
  -- Whom the policy admits: no browser, or one origin that is the server's own, or one that is listed
  -- and either asks first or uses a listed method.
  pub data IsAdmissible (p : Policy) (r : Request) (target : Text) : Type 0 where
    no_origin : values origin_key r.header ≡ [] → IsAdmissible p r target
    same_origin :
        (o : Text)
        → values origin_key r.header ≡ o ∷ []
        → normalize_origin runes o ≡ some (target_text runes target)
        → IsAdmissible p r target
    listed_origin :
        (o c : Text)
        → values origin_key r.header ≡ o ∷ []
        → normalize_origin runes o ≡ some c
        → is_some (lookup c p.origins) ≡ true
        → (is_preflight runes r || is_some (lookup r.method p.methods)) ≡ true
        → IsAdmissible p r target

  -- The cases behind a normalised origin.
  decided :
      (p : Policy) (r : Request) (w : Writer) (same : Bool)
      → is_admitted (decide runes p r w same)
        ≡ (same || is_preflight runes r || is_some (lookup r.method p.methods))
  unfolding decide
  decided p r w same = ground arith

  -- One Origin header with a normal form.
  prepare-one :
      (p : Policy) (h : Header) (r : Request) (target o c : Text)
      → equal r.method (codes "CONNECT") ≡ false
      → values origin_key r.header ≡ o ∷ []
      → normalize_origin runes o ≡ some c
      → is_admitted (prepare runes (some p) h r target) ≡ (
          (equal c (target_text runes target) || is_some (lookup c p.origins))
          && (equal c (target_text runes target)
              || is_preflight runes r
              || is_some (lookup r.method p.methods)))
  unfolding prepare decide
  prepare-one p h r target o c m v n = rw (m, v, n) (ground arith)

  prepare-invalid :
      (p : Policy) (h : Header) (r : Request) (target o : Text)
      → equal r.method (codes "CONNECT") ≡ false
      → values origin_key r.header ≡ o ∷ []
      → normalize_origin runes o ≡ none
      → is_admitted (prepare runes (some p) h r target) ≡ false
  unfolding prepare
  prepare-invalid p h r target o m v n = rw (m, v, n) refl

  prepare-many :
      (p : Policy) (h : Header) (r : Request) (target o o' : Text) (os : List Text)
      → equal r.method (codes "CONNECT") ≡ false
      → values origin_key r.header ≡ o ∷ o' ∷ os
      → is_admitted (prepare runes (some p) h r target) ≡ false
  unfolding prepare
  prepare-many p h r target o o' os m v = elim (Option-cases (normalize_origin runes o)) [
    | inl n ↦ rw (m, v, n) refl
    | inr (c, n) ↦ rw (m, v, n) (ground arith)
  ]

  prepare-none :
      (p : Policy) (h : Header) (r : Request) (target : Text)
      → equal r.method (codes "CONNECT") ≡ false
      → values origin_key r.header ≡ []
      → is_admitted (prepare runes (some p) h r target) ≡ true
  unfolding prepare
  prepare-none p h r target m v = rw (m, v) refl

  List-cases :
      (xs : List Text)
      → (xs ≡ [])
        ⊎ ((o : Text) × (xs ≡ o ∷ []))
        ⊎ ((o o' : Text) × (os : List Text) × (xs ≡ o ∷ o' ∷ os))
  List-cases [] = inl refl
  List-cases (o ∷ []) = inr (inl (o, refl))
  List-cases (o ∷ o' ∷ os) = inr (inr (o, o', os, refl))

  IsAdmissible-one :
      (p : Policy) (r : Request) (target o c : Text)
      → values origin_key r.header ≡ o ∷ []
      → normalize_origin runes o ≡ some c
      → ((equal c (target_text runes target) || is_some (lookup c p.origins))
          && (equal c (target_text runes target)
              || is_preflight runes r
              || is_some (lookup r.method p.methods)))
        ≡ true
      → IsAdmissible p r target
  IsAdmissible-one p r target o c v n a = elim (Bool-cases (equal c (target_text runes target))) [
    | inl e ↦ same_origin o v (n ∙ ap some ((equal_iff c (target_text runes target)).0 e))
    | inr e ↦ listed_origin o c v n (ground (arith, a, e)) (ground (arith, a, e))
  ]

  IsAdmissible-of :
      (p : Policy) (h : Header) (r : Request) (target : Text)
      → equal r.method (codes "CONNECT") ≡ false
      → is_admitted (prepare runes (some p) h r target) ≡ true
      → IsAdmissible p r target
  IsAdmissible-of p h r target m a = elim (List-cases (values origin_key r.header)) [
    | inl v ↦ no_origin v
    | inr (inl (o, v)) ↦ elim (Option-cases (normalize_origin runes o)) [
      | inl n ↦ absurd (ground (arith, a, prepare-invalid p h r target o m v n))
      | inr (c, n) ↦
          IsAdmissible-one p r target o c v n (rw (prepare-one p h r target o c m v n) at a)
    ]
    | inr (inr (o, o', os, v)) ↦ absurd (ground (arith, a, prepare-many p h r target o o' os m v))
  ]

  admitted_of :
      (p : Policy) (h : Header) (r : Request) (target : Text)
      → equal r.method (codes "CONNECT") ≡ false
      → IsAdmissible p r target
      → is_admitted (prepare runes (some p) h r target) ≡ true
  admitted_of p h r target m (no_origin v) = prepare-none p h r target m v
  admitted_of p h r target m (same_origin o v n) =
      prepare-one p h r target o (target_text runes target) m v n
      ∙ (rw (equal_refl (target_text runes target)) refl)
  admitted_of p h r target m (listed_origin o c v n l a) =
      prepare-one p h r target o c m v n ∙ ground (arith, l, a)

  -- `Prepare` under a policy lets a request other than CONNECT go on exactly when it is admissible: it has no
  -- Origin header; or exactly one, which normalises to the server's own origin; or exactly one, which
  -- normalises to a listed origin, in a preflight or with a listed method.
  pub prepare_iff :
      (p : Policy) (h : Header) (r : Request) (target : Text)
      → equal r.method (codes "CONNECT") ≡ false
      → (is_admitted (prepare runes (some p) h r target) ≡ true) ↔ IsAdmissible p r target
  prepare_iff p h r target m = (IsAdmissible-of p h r target m, admitted_of p h r target m)
