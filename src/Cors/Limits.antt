-- ===== src/Cors/Limits.antt =====
-- httpcors/cors.go: what `Normalize` lets through.
use rstream_go.Base.{
  ℕ, suc, ◌+◌, ◌≤◌, true, false, not, ◌||◌, Option, none, some, List, [], ◌∷◌, ◌≡◌, ◌≢◌, refl, ap,
  arith, map, ltb, inl, inr, length, is_nil, All, All-map, Bool-cases, Option-cases, Text,
}
use rstream_go.Cors.{
  Runes, CorsConfig, byte_length, normalize_origin, normalize_method, normalize_header,
  normalize_values, normalize_group, normalize, or_default, default_methods, default_headers,
  is_forbidden, explicit, valid_age,
}

-- The bytes of a list of strings.
abbrev pub total : List Text → ℕ
total [] = 0
total (v ∷ vs) = byte_length v + total vs

-- `ws` comes of `vs` by `f`, one for one, within the bounds on both counts; `s` and `n` are the bytes seen
-- before it and behind it.
pub record IsGroup (f : Text → Option Text) (s : ℕ) (vs ws : List Text) (n : ℕ) : Type 0 where
  pub kept_length : length ws ≡ length vs
  pub size_is : n ≡ s + total vs
  pub in_bytes : s ≤ 16384 → n ≤ 16384
  pub accepted : All (λ w. (v : Text) × (f v ≡ some w)) ws

-- A group that was accepted is one of those.
abbrev Holds : (Text → Option Text) → ℕ → List Text → Option (List Text × ℕ) → Type 0
Holds f s vs none = Unit
Holds f s vs (some (ws, n)) = IsGroup f s vs ws n

-- What the policy that `Normalize` returns for `c` is.
pub record IsBounded (runes : Runes) (c c' : CorsConfig) : Type 0 where
  pub age : ℕ
  pub age_is : (c.max_age ≡ some age) × (c'.max_age ≡ some age) × (age ≤ 86400)
  pub has_origin : c'.allowed_origins ≢ []
  pub lengths :
      (length c'.allowed_origins ≤ 128)
      × (length c'.allowed_methods ≤ 128)
      × (length c'.allowed_headers ≤ 128)
      × (length c'.exposed_headers ≤ 128)
  pub bytes :
      total c.allowed_origins
        + total (or_default runes c.allowed_methods (default_methods runes))
        + total (or_default runes c.allowed_headers (default_headers runes))
        + total c.exposed_headers
      ≤ 16384
  pub origins : All (λ w. (v : Text) × (normalize_origin runes v ≡ some w)) c'.allowed_origins
  pub methods : All (λ w. is_forbidden runes w ≡ false) c'.allowed_methods

module _ (runes : Runes) where
  Holds-cons :
      (f : Text → Option Text) (s : ℕ) (v w : Text) (vs : List Text) (o : Option (List Text × ℕ))
      → ltb 16384 (s + byte_length v) ≡ false
      → f v ≡ some w
      → Holds f (s + byte_length v) vs o
      → Holds f s (v ∷ vs) (elim o [ none ↦ none | some (ws, n) ↦ some (w ∷ ws, n) ])
  Holds-cons f s v w vs none e q h = tt
  Holds-cons f s v w vs (some (ws, n)) e q h =
      let bytes = h.in_bytes in
      record {
        kept_length = ap suc h.kept_length;
        size_is = omega (arith, h.size_is);
        in_bytes = λ _. bytes (ground (arith, e));
        accepted = ((v, q), h.accepted);
      }

  normalize_values-Holds :
      (f : Text → Option Text) (s : ℕ) (vs : List Text)
      → Holds f s vs (normalize_values runes f s vs)
  unfolding normalize_values
  normalize_values-Holds f s [] = record {
    kept_length = refl;
    size_is = omega arith;
    in_bytes = λ h. h;
    accepted = tt;
  }
  normalize_values-Holds f s (v ∷ vs) = elim (Bool-cases (ltb 16384 (s + byte_length v))) [
    | inl e ↦ rw e tt
    | inr e ↦ elim (Option-cases (f v)) [
      | inl q ↦ rw (e, q) tt
      | inr (w, q) ↦
          rw (e, q)
            (Holds-cons f s v w vs (normalize_values runes f (s + byte_length v) vs) e q
              (normalize_values-Holds f (s + byte_length v) vs))
    ]
  ]

  normalize_group-IsGroup :
      (f : Text → Option Text) (s : ℕ) (vs ws : List Text) (n : ℕ)
      → normalize_group runes f s vs ≡ some (ws, n)
      → (length ws ≤ 128) × IsGroup f s vs ws n
  unfolding normalize_group
  normalize_group-IsGroup f s vs ws n h = elim (Bool-cases (ltb 128 (length vs))) [
    | inl e ↦ let no : none ≡ some (ws, n) = rw e at h in absurd (ground (arith, no))
    | inr e ↦
        let q : normalize_values runes f s vs ≡ some (ws, n) = rw e at h in
        let g : IsGroup f s vs ws n = rw q at (normalize_values-Holds f s vs) in
        (ground (arith, g.kept_length, e), g)
  ]

  method-allowed : (v w : Text) → normalize_method runes v ≡ some w → is_forbidden runes w ≡ false
  unfolding normalize_method
  method-allowed v w h =
      let m = map runes.to_upper v in
      elim (Bool-cases (explicit runes v)) [
        | inl x ↦ elim (Bool-cases (is_forbidden runes m)) [
          | inl e ↦ let no : none ≡ some w = rw (x, e) at h in absurd (ground (arith, no))
          | inr e ↦
              let q : some m ≡ some w = rw (x, e) at h in
              let q' : m ≡ w = ground (arith, q) in rw q' at e
        ]
        | inr x ↦ let no : none ≡ some w = rw x at h in absurd (ground (arith, no))
      ]

  methods-allowed :
      (ws : List Text)
      → All (λ w. (v : Text) × (normalize_method runes v ≡ some w)) ws
      → All (λ w. is_forbidden runes w ≡ false) ws
  methods-allowed ws h =
      All-map (λ w. is_forbidden runes w ≡ false) (λ w (v, e). method-allowed v w e) ws h

  abbrev Bounds : CorsConfig → Option (Option CorsConfig) → Type 0
  Bounds c none = Unit
  Bounds c (some none) = Unit
  Bounds c (some (some c')) = IsBounded runes c c'

  origins-some : (vs ws : List Text) → is_nil vs ≡ false → length ws ≡ length vs → ws ≢ []
  origins-some [] ws e l = absurd (ground (arith, e))
  origins-some (v ∷ vs) [] e l = absurd (omega (arith, l))
  origins-some (v ∷ vs) (w ∷ ws) e l = ground arith

  age-bound : (o : Option ℕ) → valid_age runes o ≡ true → (n : ℕ) × (o ≡ some n) × (n ≤ 86400)
  age-bound none h = absurd (ground (arith, h))
  age-bound (some n) h = (n, refl, ground (arith, h))

  normalize-Bounds : (c : CorsConfig) → Bounds c (normalize runes (some c))
  unfolding normalize
  normalize-Bounds c =
      let ms = or_default runes c.allowed_methods (default_methods runes) in
      let hs = or_default runes c.allowed_headers (default_headers runes) in
      elim (Bool-cases (is_nil c.allowed_origins || not (valid_age runes c.max_age))) [
        | inl e ↦ rw e tt
        | inr e ↦
            elim (Option-cases
              (normalize_group runes (normalize_origin runes) 0 c.allowed_origins)) [
                | inl o ↦ rw (e, o) tt
                | inr ((os, n1), o) ↦
                    elim (Option-cases (normalize_group runes (normalize_method runes) n1 ms)) [
                      | inl m ↦ rw (e, o, m) tt
                      | inr ((ws, n2), m) ↦
                          elim (Option-cases
                            (normalize_group runes (normalize_header runes) n2 hs)) [
                              | inl h ↦ rw (e, o, m, h) tt
                              | inr ((xs, n3), h) ↦
                                  elim (Option-cases (
                                    normalize_group runes (normalize_header runes) n3
                                      c.exposed_headers)) [
                                        | inl x ↦ rw (e, o, m, h, x) tt
                                        | inr ((ys, n4), x) ↦
                                            let (age, age_is, age_le) =
                                              age-bound c.max_age (ground (arith, e)) in
                                            let (l1, g1) =
                                              normalize_group-IsGroup (normalize_origin runes) 0
                                                c.allowed_origins os n1 o in
                                            let (l2, g2) =
                                              normalize_group-IsGroup (normalize_method runes) n1 ms
                                                ws n2 m in
                                            let (l3, g3) =
                                              normalize_group-IsGroup (normalize_header runes) n2 hs
                                                xs n3 h in
                                            let (l4, g4) =
                                              normalize_group-IsGroup (normalize_header runes) n3
                                                c.exposed_headers ys n4 x in
                                            let b = g4.in_bytes (
                                              g3.in_bytes
                                                (g2.in_bytes (g1.in_bytes (omega arith)))) in
                                            rw (e, o, m, h, x)
                                              (record {
                                                age = age;
                                                age_is = (age_is, age_is, age_le);
                                                has_origin =
                                                    origins-some c.allowed_origins os
                                                      (ground (arith, e)) g1.kept_length;
                                                lengths = (l1, l2, l3, l4);
                                                bytes = omega (
                                                  arith, b, g1.size_is, g2.size_is, g3.size_is,
                                                  g4.size_is,
                                                );
                                                origins = g1.accepted;
                                                methods = methods-allowed ws g2.accepted;
                                              })
                                      ]
                            ]
                    ]
              ]
      ]

  -- A policy that `Normalize` accepts has an origin, at most 128 entries in each list, at most 16384 bytes
  -- in all its lists as they were given (the defaults for missing ones included), an age of at most a
  -- day, only origins that `normalizeOrigin` has made, and none of the methods CONNECT, TRACE and TRACK.
  pub normalize-IsBounded :
      (c c' : CorsConfig) → normalize runes (some c) ≡ some (some c') → IsBounded runes c c'
  normalize-IsBounded c c' h = rw h at (normalize-Bounds c)
