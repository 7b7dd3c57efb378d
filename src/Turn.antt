-- ===== src/Turn.antt =====
-- turn.go, turn_client.go and turn_app.go: credentials for a TURN relay. Durations are nanoseconds, times are seconds since
-- 1970, whole ones, as the bits of an `int64`. `mac` makes a credential from a secret, the realm, and the user name,
-- `decimal` prints a number, and `to_lower` is `strings.ToLower`.
pub mod Lifetime
pub mod Usernames
pub mod Tests
use rstream_go.Base.{
  ℕ, zero, suc, ◌+◌, ◌-◌, ◌*◌, ◌/◌, ◌%◌, ◌^◌, Bool, true, false, not, ◌&&◌, ◌||◌, Option, none,
  some, List, [], ◌∷◌, ◌++◌, if◌then◌else◌, ◌==◌, ◌>>=◌, length, is_nil, is_some, ltb, leb, all,
  any, Text, codes, equal, trim_space,
}

abbrev pub second : ℕ
second = 1000000000

abbrev pub default_ttl : ℕ
default_ttl = 600 * second

abbrev pub max_ttl : ℕ
max_ttl = 3600 * second

-- `TURNCredentialMode`, other than "auto".
pub data Mode : Type 0 where
  api engine pat app : Mode

-- `turnTokenClaims` behind the decoding; `all_permissions` says that there was no list.
pub record Claims : Type 0 where
  pub all_permissions : Bool
  pub kind : Text
  pub token_endpoint : Text
  pub legacy_token_endpoint : Text
  pub permissions : List Text
  pub expires_at : Option ℕ

pub record Options : Type 0 where
  pub project_endpoint : Text
  pub cluster_domain : Text
  pub turn_domain : Text
  pub turn_realm : Text
  pub turn_port : Option ℕ
  pub turns_port : Option ℕ
  pub ttl : ℕ
  pub client_id : Text

pub record Credentials : Type 0 where
  pub username : Text
  pub credential : Text
  pub urls : List Text
  pub ttl : ℕ

-- `validateTURNTTL`
unfoldable pub validate_ttl : ℕ → Bool
validate_ttl ttl =
    not (not (ttl == 0) && (ltb ttl second || ltb (3600 * second) ttl || not (ttl % second == 0)))

abbrev pub component_char : ℕ → Bool
component_char c =
    leb 97 c && leb c 122
    || leb 65 c && leb c 90
    || leb 48 c && leb c 57
    || c == 45
    || c == 95
    || c == 46

-- `validTURNComponent`
unfoldable pub valid_component : Text → Bool
valid_component value = not (is_nil value || ltb 128 (length value)) && all component_char value

-- `strings.Split` at one character.
unfoldable pub split_at : ℕ → Text → List Text
split_at sep [] = [] ∷ []
split_at sep (c ∷ s) =
    let rest = split_at sep s in
    if c == sep
    then [] ∷ rest
    else elim rest [ [] ↦ (c ∷ []) ∷ [] | part ∷ parts ↦ (c ∷ part) ∷ parts ]

abbrev last : Text → ℕ
last [] = 0
last (c ∷ []) = c
last (_ ∷ d ∷ s) = last (d ∷ s)

abbrev first : Text → ℕ
first [] = 0
first (c ∷ _) = c

abbrev valid_label : Text → Bool
valid_label s =
    not (is_nil s || ltb 63 (length s) || first s == 45 || last s == 45)
    && all (λ c. leb 97 c && leb c 122 || leb 48 c && leb c 57 || c == 45) s

-- `validTURNDomain`
unfoldable pub valid_domain : Text → Bool
unfolding split_at
valid_domain value = not (ltb 253 (length value)) && all valid_label (split_at 46 value)

-- `normalizeTURNCredentialTTL`; a negative duration is 0.
unfoldable pub normalize_ttl : ℕ → ℕ
normalize_ttl ttl = if ttl == 0 then default_ttl else if ltb max_ttl ttl then max_ttl else ttl

-- The time until `expires`, as the bits of an `int64`, where the product may wrap.
abbrev pub remaining : ℕ → ℕ → ℕ
remaining expires now = (expires + (2 ^ 64 - now)) % 2 ^ 64 * second % 2 ^ 64

-- `normalizePATTURNCredentialTTL` at a time `now`
unfoldable pub normalize_pat_ttl : ℕ → Option ℕ → ℕ → Option ℕ
unfolding normalize_ttl
normalize_pat_ttl ttl none now = none
normalize_pat_ttl ttl (some expires) now =
    let left = remaining expires now in
    if left == 0 || leb (2 ^ 63) left
    then none
    else if ltb left (normalize_ttl ttl)
    then some left
    else some (normalize_ttl ttl)

-- The end of `parseTURNTokenClaims`, behind the decoding.
unfoldable pub check_claims : Claims → Option Claims
unfolding valid_component equal
check_claims c =
    let endpoint = if is_nil c.token_endpoint then c.legacy_token_endpoint else c.token_endpoint in
    if not (is_nil c.token_endpoint)
      && not (is_nil c.legacy_token_endpoint)
      && not (equal c.token_endpoint c.legacy_token_endpoint)
    then none
    else if not (is_nil endpoint) && not (valid_component endpoint)
    then none
    else if is_nil (trim_space c.kind)
    then none
    else some (record c { token_endpoint = endpoint })

module _ (decimal : ℕ → Text) (to_lower : Text → Text) where
  -- `normalizeTURNClusterDomain`
  abbrev pub normalize_domain : Text → Text
  normalize_domain s = to_lower (trim_space s)

  abbrev pub or_domain : Text → Text → Text
  or_domain s fallback =
      if is_nil (normalize_domain s) then normalize_domain fallback else normalize_domain s

  abbrev port_or : Option ℕ → ℕ → ℕ
  port_or none fallback = fallback
  port_or (some p) fallback = if ltb 0 p then p else fallback

  -- A port in range; `none` is a negative one.
  abbrev pub valid_port : Option ℕ → Bool
  valid_port none = false
  valid_port (some p) = leb p 65535

  -- `turnURLs`
  unfoldable pub turn_urls : Text → Option ℕ → Option ℕ → List Text
  turn_urls domain turn turns =
      let url : Text → ℕ → Text → Text = λ scheme port transport.
        scheme ++ (domain ++ (58 ∷ decimal port ++ (codes "?transport=" ++ transport))) in
      url (codes "turn:") (port_or turn 3478) (codes "udp")
      ∷ url (codes "turn:") (port_or turn 3478) (codes "tcp")
      ∷ url (codes "turns:") (port_or turns 5349) (codes "udp")
      ∷ url (codes "turns:") (port_or turns 5349) (codes "tcp")
      ∷ []

  -- The format "v1:%d:kind:%s:%s".
  abbrev pub username_of : ℕ → Text → Text → Text → Text
  username_of time kind project subject =
      codes "v1:" ++ (decimal time ++ (58 ∷ kind ++ (58 ∷ project ++ (58 ∷ subject))))

  -- The checks of `createPATTURNCredentialsAt`
  unfoldable pub valid_target : Options → Bool
  unfolding valid_component valid_domain
  valid_target opts =
      let domain = or_domain opts.turn_domain opts.cluster_domain in
      let realm = or_domain opts.turn_realm opts.cluster_domain in
      valid_component (trim_space opts.project_endpoint)
      && valid_port opts.turn_port
      && valid_port opts.turns_port
      && not (is_nil domain)
      && not (is_nil realm)
      && valid_domain domain
      && valid_domain realm

  -- The credentials of this kind, user and lifetime.
  unfoldable pub signed :
      (Text → Option Text) → Options → Text → Text → Text → Text → ℕ → ℕ → Option Credentials
  unfolding turn_urls
  signed mac opts domain kind project subject now ttl =
      let username = username_of ((now + ttl / second) % 2 ^ 64) kind project subject in
      elim (mac username) [
        | none ↦ none
        | some credential ↦ some (record {
          username = username;
          credential = credential;
          urls = turn_urls domain opts.turn_port opts.turns_port;
          ttl = ttl / second;
        })
      ]

  -- `createPATTURNCredentialsAt`
  unfoldable pub create_pat :
      (Text → Text → Text → Option Text) → Options → Text → Claims → ℕ → Option Credentials
  unfolding valid_target normalize_pat_ttl signed
  create_pat mac opts token claims now = do
    ttl ← (if valid_target opts then normalize_pat_ttl opts.ttl claims.expires_at now else none)
    signed (mac token (or_domain opts.turn_realm opts.cluster_domain)) opts
        (or_domain opts.turn_domain opts.cluster_domain) (codes "pat")
        (trim_space opts.project_endpoint) claims.token_endpoint now ttl

  -- The end of `deriveAPPTURNCredentials`, with the shared secret.
  unfoldable pub derive_app :
      (Text → Text → Text → Option Text) → Options → Text → Text → Text → ℕ → Option Credentials
  unfolding normalize_ttl signed
  derive_app mac opts shared domain realm now =
      signed (mac shared realm) opts domain (codes "app") opts.project_endpoint opts.client_id now
        (normalize_ttl opts.ttl)

-- `resolveTURNCredentialMode`; `parse` is `parseTURNTokenClaims`, whose errors are `none` and, for a conflict
-- of the endpoints, `some none`.
unfoldable pub resolve_mode :
    (Text → Option (Option Claims)) → Claims → Text → Option Mode → Option (Mode × Claims)
unfolding equal
resolve_mode parse empty token (some api) = some (api, empty)
resolve_mode parse empty token (some pat) = elim (parse token) [
  | none ↦ none
  | some none ↦ none
  | some (some c) ↦
      if not (equal c.kind (codes "pat")) || is_nil (trim_space c.token_endpoint)
      then none
      else some (pat, c)
]
resolve_mode parse empty token (some _) = none
resolve_mode parse empty token none = elim (parse token) [
  | none ↦ some (api, empty)
  | some none ↦ none
  | some (some c) ↦
      if equal c.kind (codes "pat")
        && not (is_nil c.token_endpoint)
        && is_some c.expires_at
        && (c.all_permissions || any (equal (codes "turn.relay.allocate")) c.permissions)
      then some (pat, c)
      else some (api, c)
]
