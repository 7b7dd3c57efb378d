-- ===== src/Turn/Usernames.antt =====
-- turn.go and turn_app.go: the fields of a user name can be told apart.
use rstream_go.Base.{
  ℕ, ◌+◌, ◌/◌, ◌%◌, ◌^◌, ◌≡◌, refl, ap, ◌∙◌, inl, inr, arith, Bool, true, not, Option, some, [],
  ◌∷◌, ◌++◌, if◌then◌else◌, ◌==◌, all, is_nil, Text, codes, trim_space, Bool-cases,
}
use rstream_go.Turn.{
  Options, Claims, Credentials, valid_component, component_char, split_at, username_of, create_pat,
  check_claims, second, valid_target,
}
use rstream_go.Turn.Lifetime.{create_pat_cases}

abbrev pub no_colon : Text → Bool
no_colon s = all (λ c. not (c == 58)) s

split_at-field : (s r : Text) → no_colon s ≡ true → split_at 58 (s ++ (58 ∷ r)) ≡ s ∷ split_at 58 r
unfolding split_at
split_at-field [] r h = refl
split_at-field (c ∷ s) r h =
    rw (split_at, split_at-field s r (ground (arith, h))) (ground (arith, h))

split_at_last : (s : Text) → no_colon s ≡ true → split_at 58 s ≡ s ∷ []
unfolding split_at
split_at_last [] h = refl
split_at_last (c ∷ s) h = rw (split_at, split_at_last s (ground (arith, h))) (ground (arith, h))

component_no_colon : (s : Text) → all component_char s ≡ true → no_colon s ≡ true
component_no_colon [] h = refl
component_no_colon (c ∷ s) h = ground (arith, h, component_no_colon s)

valid_component-no_colon : (s : Text) → valid_component s ≡ true → no_colon s ≡ true
unfolding valid_component
valid_component-no_colon s h = component_no_colon s (ground (arith, h))

nil_no_colon : (s : Text) → is_nil s ≡ true → no_colon s ≡ true
nil_no_colon [] h = refl
nil_no_colon (c ∷ s) h = absurd (ground (arith, h))

valid_target_component :
    (decimal : ℕ → Text) (to_lower : Text → Text) (opts : Options)
    → valid_target decimal to_lower opts ≡ true
    → valid_component (trim_space opts.project_endpoint) ≡ true
unfolding valid_target
valid_target_component decimal to_lower opts h = ground (arith, h)

check_claims-no_colon :
    (raw claims : Claims) → check_claims raw ≡ some claims → no_colon claims.token_endpoint ≡ true
unfolding check_claims
check_claims-no_colon raw claims h =
    let endpoint =
      if is_nil raw.token_endpoint then raw.legacy_token_endpoint else raw.token_endpoint in
    let e : claims.token_endpoint ≡ endpoint = ground (arith, h) in
    rw e (elim (Bool-cases (is_nil endpoint)) [
      | inl k ↦ nil_no_colon endpoint k
      | inr k ↦ valid_component-no_colon endpoint (ground (arith, h, k))
    ])

module _ (decimal : ℕ → Text) (to_lower : Text → Text)
    (mac : Text → Text → Text → Option Text) where
  username_of_fields :
      (time : ℕ) (kind project subject : Text)
      → no_colon (decimal time) ≡ true
      → no_colon kind ≡ true
      → no_colon project ≡ true
      → no_colon subject ≡ true
      → split_at 58 (username_of decimal to_lower time kind project subject)
        ≡ codes "v1" ∷ decimal time ∷ kind ∷ project ∷ subject ∷ []
  username_of_fields time kind project subject a b c d =
      split_at-field (codes "v1") _ refl
      ∙ ap (λ x. codes "v1" ∷ x)
          (split_at-field (decimal time) _ a
            ∙ ap (λ x. decimal time ∷ x)
                (split_at-field kind _ b
                  ∙ ap (λ x. kind ∷ x)
                      (split_at-field project subject c
                        ∙ ap (λ x. project ∷ x) (split_at_last subject d))))

  -- A relay that splits the user name of such credentials at the colons finds the version, the end of the lifetime, the kind,
  -- the project and the token's endpoint, whatever the options and the claims of the token are, if printed
  -- numbers have no colon.
  pub create_pat_fields :
      (opts : Options) (token : Text) (raw claims : Claims) (now : ℕ) (c : Credentials)
      → ((n : ℕ) → no_colon (decimal n) ≡ true)
      → check_claims raw ≡ some claims
      → create_pat decimal to_lower mac opts token claims now ≡ some c
      → split_at 58 c.username
        ≡ codes "v1"
          ∷ decimal ((now + c.ttl) % 2 ^ 64)
          ∷ codes "pat"
          ∷ trim_space opts.project_endpoint
          ∷ claims.token_endpoint
          ∷ []
  create_pat_fields opts token raw claims now c digits checked h =
      let (t, _, valid, q, u) = create_pat_cases decimal to_lower mac opts token claims now c h in
      rw (u, q)
        (username_of_fields ((now + t / second) % 2 ^ 64) (codes "pat")
          (trim_space opts.project_endpoint) claims.token_endpoint
          (digits ((now + t / second) % 2 ^ 64)) refl
          (valid_component-no_colon (trim_space opts.project_endpoint)
            (valid_target_component decimal to_lower opts valid))
          (check_claims-no_colon raw claims checked))
