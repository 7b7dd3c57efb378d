-- ===== src/Turn/Lifetime.antt =====
-- turn.go: how long the credentials of a token live.
use rstream_go.Base.{
  ℕ, ◌+◌, ◌-◌, ◌*◌, ◌/◌, ◌%◌, ◌^◌, ◌≤◌, ◌<◌, ◌≡◌, ◌⊎◌, refl, sym, ◌∙◌, inl, inr, arith, true,
  Option, none, some, if◌then◌else◌, ◌==◌, bind-some, ltb, Text, codes, trim_space, Bool-cases,
  Option-cases,
}
use rstream_go.Turn.{
  second, max_ttl, Claims, Options, Credentials, validate_ttl, normalize_ttl, remaining,
  normalize_pat_ttl, create_pat, username_of, valid_target, signed, or_domain,
}

normalize_ttl_valid :
    (ttl : ℕ)
    → validate_ttl ttl ≡ true
    → (second ≤ normalize_ttl ttl)
      × (normalize_ttl ttl ≤ max_ttl)
      × (normalize_ttl ttl % second ≡ 0)
unfolding validate_ttl normalize_ttl
normalize_ttl_valid ttl h = ground (arith, h)

-- The product does not wrap within 292 years.
remaining_cases :
    (e now : ℕ)
    → now < 2 ^ 63
    → e < 2 ^ 63
    → e ≤ now + 9223372036
    → now ≤ e + 9223372036
    → ((now < e) × (remaining e now ≡ (e - now) * second))
      ⊎ (remaining e now ≡ 0)
      ⊎ (2 ^ 63 ≤ remaining e now)
remaining_cases e now a b c d = elim (Bool-cases (ltb now e)) [
  | inl h ↦
      let p : (e + (2 ^ 64 - now)) % 2 ^ 64 ≡ e - now = ground (arith, h) in
      inl (ground (arith, h), rw p (omega (arith, c)))
  | inr h ↦ elim (Bool-cases (now == e)) [
    | inl k ↦ let p : (e + (2 ^ 64 - now)) % 2 ^ 64 ≡ 0 = ground (arith, k) in inr (inl (rw p refl))
    | inr k ↦
        let p : (e + (2 ^ 64 - now)) % 2 ^ 64 ≡ 2 ^ 64 - (now - e) = ground (arith, h, k) in
        inr (inr (rw p (ground (arith, h, k, d))))
  ]
]

normalize_pat_ttl_valid :
    (ttl e now t : ℕ)
    → validate_ttl ttl ≡ true
    → now < 2 ^ 63
    → e < 2 ^ 63
    → e ≤ now + 9223372036
    → now ≤ e + 9223372036
    → normalize_pat_ttl ttl (some e) now ≡ some t
    → (second ≤ t) × (t ≤ max_ttl) × (now + t / second ≤ e)
unfolding normalize_pat_ttl
normalize_pat_ttl_valid ttl e now t h a b c d eq =
    let (lo, hi, whole) = normalize_ttl_valid ttl h in
    elim (remaining_cases e now a b c d) [
      | inl (before, r) ↦ elim (Bool-cases (ltb (remaining e now) (normalize_ttl ttl))) [
        | inl k ↦
            let q : t ≡ (e - now) * second = ground (arith, eq, k, r) in
            (omega (arith, q, before), ground (arith, k, r, q, hi), omega (arith, q, before))
        | inr k ↦
            let q : t ≡ normalize_ttl ttl = ground (arith, eq, k) in
            (omega (arith, q, lo), omega (arith, q, hi), ground (arith, q, k, r, before, whole))
      ]
      | inr (inl r) ↦ absurd (ground (arith, eq, r))
      | inr (inr r) ↦ absurd (ground (arith, eq, r))
    ]

module _ (decimal : ℕ → Text) (to_lower : Text → Text)
    (mac : Text → Text → Text → Option Text) where
  pub signed_cases :
      (key : Text → Option Text) (opts : Options) (domain kind project subject : Text) (now t : ℕ)
      (c : Credentials)
      → signed decimal to_lower key opts domain kind project subject now t ≡ some c
      → (c.ttl ≡ t / second)
        × (c.username
            ≡ username_of decimal to_lower ((now + t / second) % 2 ^ 64) kind project subject)
  unfolding signed
  signed_cases key opts domain kind project subject now t c h =
      let user = username_of decimal to_lower ((now + t / second) % 2 ^ 64) kind project subject in
      elim (Option-cases (key user)) [
        | inl e ↦ absurd (ground (arith, h, e))
        | inr (m, e) ↦ (ground (arith, h, e), ground (arith, h, e))
      ]

  pub create_pat_cases :
      (opts : Options) (token : Text) (claims : Claims) (now : ℕ) (c : Credentials)
      → create_pat decimal to_lower mac opts token claims now ≡ some c
      → (t : ℕ) × (normalize_pat_ttl opts.ttl claims.expires_at now ≡ some t)
        × (valid_target decimal to_lower opts ≡ true)
        × (c.ttl ≡ t / second)
        × (c.username
            ≡ username_of decimal to_lower
                ((now + t / second) % 2 ^ 64)
                (codes "pat")
                (trim_space opts.project_endpoint)
                claims.token_endpoint)
  unfolding create_pat
  create_pat_cases opts token claims now c h =
      let (t, p, q) =
        bind-some
          (if valid_target decimal to_lower opts
            then normalize_pat_ttl opts.ttl claims.expires_at now
            else none)
          _ c h in
      let realm = or_domain decimal to_lower opts.turn_realm opts.cluster_domain in
      let domain = or_domain decimal to_lower opts.turn_domain opts.cluster_domain in
      let (a, b) =
        signed_cases (mac token realm) opts domain (codes "pat") (trim_space opts.project_endpoint)
          claims.token_endpoint now t c q in
      (t, ground (arith, p), ground (arith, p), a, b)

  -- Credentials made from a personal access token with a valid lifetime in the options live 1 second to 1 hour, never
  -- longer than the token, and their user name carries this end, as long as the clock and the token's
  -- end are less than 292 years apart.
  pub create_pat_lifetime :
      (opts : Options) (token : Text) (claims : Claims) (now e : ℕ) (c : Credentials)
      → validate_ttl opts.ttl ≡ true
      → claims.expires_at ≡ some e
      → now < 2 ^ 63
      → e < 2 ^ 63
      → e ≤ now + 9223372036
      → now ≤ e + 9223372036
      → create_pat decimal to_lower mac opts token claims now ≡ some c
      → (1 ≤ c.ttl)
        × (c.ttl ≤ 3600)
        × (now + c.ttl ≤ e)
        × (c.username
            ≡ username_of decimal to_lower
                (now + c.ttl)
                (codes "pat")
                (trim_space opts.project_endpoint)
                claims.token_endpoint)
  create_pat_lifetime opts token claims now e c valid expires a b hi lo h =
      let (t, p, _, q, u) = create_pat_cases opts token claims now c h in
      let p' : normalize_pat_ttl opts.ttl (some e) now ≡ some t = rw (sym expires) p in
      let (x, y, z) = normalize_pat_ttl_valid opts.ttl e now t valid a b hi lo p' in
      let no_wrap : (now + t / second) % 2 ^ 64 ≡ now + c.ttl = omega (arith, z, b, q) in
      (omega (arith, x, q), omega (arith, y, q), omega (arith, z, q), u ∙ rw no_wrap refl)
