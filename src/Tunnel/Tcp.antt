-- ===== src/Tunnel/Tcp.antt =====
-- tunnel_properties.go: which published TCP tunnels are accepted.
use rstream_go.Base.{
  ℕ, ◌≤◌, Bool, true, false, not, ◌&&◌, ◌||◌, Option, none, some, List, [], ◌∷◌, ◌≡◌, ◌⊎◌, ◌↔◌, inl,
  inr, refl, ap, arith, ◌∙◌, Option-cases, is_nil, is_some, equal, equal_iff,
}
use rstream_go.Cors.{Runes, CorsConfig}
use rstream_go.Tunnel.{
  TunnelProperties, bytestream, tcp, cors_unpublished, Normal, accepted, refused, is_tcp,
  other_than_bytestream, other_than_http, is_unpublished, bad_port, has_other_options,
  normalize_tcp, normalize_create,
}

-- The properties of a published TCP tunnel.
abbrev pub as_tcp : TunnelProperties → TunnelProperties
as_tcp p = record p { type_of = some bytestream; publish = some true }

pub record IsPublishable (p : TunnelProperties) : Type 0 where
  pub http_cors : p.http_cors ≡ none
  pub port : (n : ℕ) → p.port ≡ some n → (1 ≤ n) × (n ≤ 65535)
  pub type_of : (p.type_of ≡ none) ⊎ (p.type_of ≡ some bytestream)
  pub publish : (p.publish ≡ none) ⊎ (p.publish ≡ some true)
  pub hostname : p.hostname ≡ none
  pub tls_mode : p.tls_mode ≡ none
  pub tls_alpns : p.tls_alpns ≡ []
  pub tls_min_version : p.tls_min_version ≡ none
  pub tls_ciphers : p.tls_ciphers ≡ []
  pub mtls_auth : p.mtls_auth ≡ none
  pub http_version : p.http_version ≡ none
  pub http_use_tls : p.http_use_tls ≡ none
  pub upstream_tls : p.upstream_tls ≡ none
  pub datagram_guaranteed_delivery : p.datagram_guaranteed_delivery ≡ none
  pub token_auth : p.token_auth ≡ none
  pub rstream_auth : p.rstream_auth ≡ none
  pub challenge_mode : p.challenge_mode ≡ none

is_some-none {ℓ} : {A : Type ℓ} (o : Option A) → is_some o ≡ false → o ≡ none
is_some-none none h = refl
is_some-none (some a) h = ground (arith, h)

not-is_nil {ℓ} : {A : Type ℓ} (xs : List A) → not (is_nil xs) ≡ false → xs ≡ []
not-is_nil [] h = refl
not-is_nil (x ∷ xs) h = ground (arith, h)

bad_port_iff :
    (o : Option ℕ) → (bad_port o ≡ false) ↔ ((n : ℕ) → o ≡ some n → (1 ≤ n) × (n ≤ 65535))
bad_port_iff none = (λ _ n e. absurd (ground (arith, e)), λ _. refl)
bad_port_iff (some n) = (λ h m e. ground (arith, h, e), λ f. ground (arith, f n refl))

bytestream_iff :
    (o : Option (List ℕ)) → (other_than_bytestream o ≡ false) ↔ ((o ≡ none) ⊎ (o ≡ some bytestream))
bytestream_iff none = (λ _. inl refl, λ _. refl)
bytestream_iff (some t) = (
  λ h. inr (ap some ((equal_iff t bytestream).0 (ground (arith, h)))),
  λ h. ground (arith, h, equal_iff t bytestream),
)

publish_iff : (o : Option Bool) → (is_unpublished o ≡ false) ↔ ((o ≡ none) ⊎ (o ≡ some true))
publish_iff none = (λ _. inl refl, λ _. refl)
publish_iff (some true) = (λ _. inr refl, λ _. refl)
publish_iff (some false) = (λ h. absurd (ground (arith, h)), λ h. absurd (ground (arith, h)))

abbrev is_accepted : Normal → Bool
is_accepted (accepted _) = true
is_accepted (refused _) = false

tcp-normal :
    (p : TunnelProperties)
    → is_tcp p.protocol ≡ true
    → bad_port p.port ≡ false
    → other_than_bytestream p.type_of ≡ false
    → is_unpublished p.publish ≡ false
    → has_other_options p ≡ false
    → normalize_tcp p ≡ accepted (as_tcp p)
unfolding normalize_tcp
tcp-normal p t b d u o = ground (arith, t, b, d, u, o)

tcp-is_accepted :
    (p : TunnelProperties)
    → is_tcp p.protocol ≡ true
    → is_accepted (normalize_tcp p) ≡ (
        not (bad_port p.port)
        && not (other_than_bytestream p.type_of)
        && not (is_unpublished p.publish)
        && not (has_other_options p))
unfolding normalize_tcp
tcp-is_accepted p t = rw t (ground arith)

tcp-not_http : (o : Option (List ℕ)) → is_tcp o ≡ true → other_than_http o ≡ true
unfolding equal
tcp-not_http none h = ground (arith, h)
tcp-not_http (some x) h = rw ((equal_iff x tcp).0 h) refl

or-false : (a b : Bool) → a || b ≡ false → (a ≡ false) × (b ≡ false)
or-false false b h = (refl, h)
or-false true b h = absurd (ground (arith, h))

tested-IsPublishable :
    (p : TunnelProperties)
    → p.http_cors ≡ none
    → bad_port p.port ≡ false
    → other_than_bytestream p.type_of ≡ false
    → is_unpublished p.publish ≡ false
    → has_other_options p ≡ false
    → IsPublishable p
unfolding has_other_options
tested-IsPublishable p h b t u o =
    let r1 = or-false _ _ o in
    let r2 = or-false _ _ r1.0 in
    let r3 = or-false _ _ r2.0 in
    let r4 = or-false _ _ r3.0 in
    let r5 = or-false _ _ r4.0 in
    let r6 = or-false _ _ r5.0 in
    let r7 = or-false _ _ r6.0 in
    let r8 = or-false _ _ r7.0 in
    let r9 = or-false _ _ r8.0 in
    let r10 = or-false _ _ r9.0 in
    let r11 = or-false _ _ r10.0 in
    let r12 = or-false _ _ r11.0 in
    record {
      http_cors = h;
      port = (bad_port_iff p.port).0 b;
      type_of = (bytestream_iff p.type_of).0 t;
      publish = (publish_iff p.publish).0 u;
      hostname = is_some-none p.hostname r12.0;
      tls_mode = is_some-none p.tls_mode r12.1;
      tls_alpns = not-is_nil p.tls_alpns r11.1;
      tls_min_version = is_some-none p.tls_min_version r10.1;
      tls_ciphers = not-is_nil p.tls_ciphers r9.1;
      mtls_auth = is_some-none p.mtls_auth r8.1;
      http_version = is_some-none p.http_version r7.1;
      http_use_tls = is_some-none p.http_use_tls r6.1;
      upstream_tls = is_some-none p.upstream_tls r5.1;
      datagram_guaranteed_delivery = is_some-none p.datagram_guaranteed_delivery r4.1;
      token_auth = is_some-none p.token_auth r3.1;
      rstream_auth = is_some-none p.rstream_auth r2.1;
      challenge_mode = is_some-none p.challenge_mode r1.1;
    }

publishable-has_other_options :
    (p : TunnelProperties) → IsPublishable p → has_other_options p ≡ false
unfolding has_other_options
publishable-has_other_options p v = ground (
  arith, v.hostname, v.tls_mode, v.tls_alpns, v.tls_min_version, v.tls_ciphers, v.mtls_auth,
  v.http_version, v.http_use_tls, v.upstream_tls, v.datagram_guaranteed_delivery, v.token_auth,
  v.rstream_auth, v.challenge_mode,
)

module _ (runes : Runes) where
  create-no_cors :
      (p : TunnelProperties) → p.http_cors ≡ none → normalize_create runes p ≡ normalize_tcp p
  unfolding normalize_create
  create-no_cors p h = ground (arith, h)

  create-cors :
      (p : TunnelProperties)
      → (c : CorsConfig) → p.http_cors ≡ some c
      → is_tcp p.protocol ≡ true
      → normalize_create runes p ≡ refused cors_unpublished
  unfolding normalize_create
  create-cors p c h t = ground (arith, h, tcp-not_http p.protocol t)

  publishable-normal :
      (p : TunnelProperties)
      → is_tcp p.protocol ≡ true
      → IsPublishable p
      → normalize_create runes p ≡ accepted (as_tcp p)
  publishable-normal p t v =
      create-no_cors p v.http_cors
      ∙ tcp-normal p t ((bad_port_iff p.port).1 v.port) ((bytestream_iff p.type_of).1 v.type_of)
          ((publish_iff p.publish).1 v.publish) (publishable-has_other_options p v)

  normal-IsPublishable :
      (p : TunnelProperties)
      → is_tcp p.protocol ≡ true
      → is_accepted (normalize_create runes p) ≡ true
      → IsPublishable p
  normal-IsPublishable p t a = elim (Option-cases p.http_cors) [
    | inl h ↦
        let b : is_accepted (normalize_tcp p) ≡ true = rw (create-no_cors p h) at a in
        let e = tcp-is_accepted p t in
        tested-IsPublishable p h (ground (arith, b, e)) (ground (arith, b, e))
          (ground (arith, b, e)) (ground (arith, b, e))
    | inr (c, h) ↦
        let no : false ≡ true = rw (create-cors p c h t) at a in absurd (ground (arith, no))
  ]

  -- Properties with protocol tcp are accepted exactly when they carry no policy for cross-origin requests, no
  -- port outside 1 to 65535, no type but bytestream, not publish set to false, and none of the options of
  -- host names, HTTP, TLS, authentication at the edge or delivery; what is accepted is the same properties
  -- with the type bytestream and publish set to true.
  pub normalize_create_iff :
      (p : TunnelProperties)
      → is_tcp p.protocol ≡ true
      → (normalize_create runes p ≡ accepted (as_tcp p)) ↔ IsPublishable p
  normalize_create_iff p t =
      (λ e. normal-IsPublishable p t (ap is_accepted e), publishable-normal p t)
