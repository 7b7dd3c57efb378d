-- ===== src/Cors.antt =====
-- httpcors/cors.go: the policy for cross-origin requests. `url.Parse`, `unicode.ToLower`, `unicode.ToUpper`,
-- `strings.EqualFold`, `strconv.Atoi`, `http.CanonicalHeaderKey` and `httpguts.ValidHeaderFieldName` are the
-- fields of `Runes`; a header is a dictionary over canonical names, a set of strings a dictionary of units.
pub mod Response
pub mod Owned
pub mod Limits
pub mod Origins
pub mod Admission
pub mod Wrap
pub mod Tests
use rstream_go.Base.{
  ℕ, ◌+◌, Bool, true, false, not, ◌&&◌, ◌||◌, Option, none, some, List, [], ◌∷◌, ◌++◌, map, ltb,
  leb, if◌then◌else◌, ◌==◌, length, is_nil, is_some, Text, codes, equal, has_prefix, trim_space,
  Dict, lookup, insert, all, any,
}

-- What the source reads of a `url.URL`; `port` and `hostname` are its methods' results.
pub record Url : Type 0 where
  pub scheme : Text
  pub host : Text
  pub hostname : Text
  pub port : Text
  pub has_user : Bool
  pub path : Text
  pub raw_query : Text
  pub force_query : Bool
  pub fragment : Text

pub record Runes : Type 0 where
  pub parse_url : Text → Option Url
  pub to_lower : ℕ → ℕ
  pub to_upper : ℕ → ℕ
  pub equal_fold : Text → Text → Bool
  pub atoi : Text → Option ℕ
  pub canonical_key : Text → Text
  pub valid_field_name : Text → Bool

pub record CorsConfig : Type 0 where
  pub allowed_origins : List Text
  pub allowed_methods : List Text
  pub allowed_headers : List Text
  pub exposed_headers : List Text
  pub allow_credentials : Bool
  -- `none` is a negative number.
  pub max_age : Option ℕ

-- `len` of a string: its bytes in UTF-8.
abbrev pub byte_length : Text → ℕ
byte_length [] = 0
byte_length (c ∷ s) =
    (if ltb c 0x80 then 1 else if ltb c 0x800 then 2 else if ltb c 0x10000 then 3 else 4)
    + byte_length s

-- `strings.HasSuffix(s, string(c))` for one code point, and `strings.TrimSuffix`.
abbrev pub ends_with : ℕ → Text → Bool
ends_with c [] = false
ends_with c (d ∷ []) = c == d
ends_with c (d ∷ s) = ends_with c s

unfoldable pub trim_suffix : Text → Text → Text
trim_suffix [] suffix = []
trim_suffix (c ∷ s) suffix =
    let rest = trim_suffix s suffix in if equal (c ∷ s) suffix then [] else c ∷ rest

-- The characters that no origin holds.
abbrev pub is_barred : ℕ → Bool
is_barred c = any (λ d. c == d) (codes "*\\\r\n\t #?")

module _ (runes : Runes) where
  abbrev pub has_scheme : Url → Bool
  has_scheme u = equal u.scheme (codes "http") || equal u.scheme (codes "https")

  abbrev pub is_default_port : Url → Bool
  is_default_port u =
      equal u.scheme (codes "https") && equal u.port (codes "443")
      || equal u.scheme (codes "http") && equal u.port (codes "80")

  -- The test of the port: a number in range.
  abbrev pub valid_port : Text → Bool
  valid_port port = elim (runes.atoi port) [ none ↦ false | some n ↦ leb 1 n && leb n 65535 ]

  -- `normalizeOrigin`
  unfoldable pub normalize_origin : Text → Option Text
  normalize_origin value = elim (runes.parse_url value) [
    | none ↦ none
    | some u ↦
        if not (has_scheme u)
          || is_nil u.host
          || is_nil u.hostname
          || ends_with 58 u.host
          || u.has_user
          || not (is_nil u.path)
          || not (is_nil u.raw_query)
          || u.force_query
          || not (is_nil u.fragment)
          || any is_barred value
        then none
        else if not (is_nil u.port) && not (valid_port u.port)
        then none
        else let host =
            if not (is_nil u.port) && is_default_port u
            then trim_suffix u.host (58 ∷ u.port)
            else u.host in
          some (u.scheme ++ (codes "://" ++ map runes.to_lower host))
  ]

  abbrev pub is_forbidden : Text → Bool
  is_forbidden m = equal m (codes "CONNECT") || equal m (codes "TRACE") || equal m (codes "TRACK")

  abbrev pub explicit : Text → Bool
  explicit value = not (equal value (codes "*")) && runes.valid_field_name value

  unfoldable pub normalize_method : Text → Option Text
  normalize_method value =
      let m = map runes.to_upper value in
      if not (explicit value) then none else if is_forbidden m then none else some m

  unfoldable pub normalize_header : Text → Option Text
  normalize_header value = if not (explicit value) then none else some (runes.canonical_key value)

  -- The inner loop of `Normalize`, with the size so far.
  unfoldable pub normalize_values : (Text → Option Text) → ℕ → List Text → Option (List Text × ℕ)
  normalize_values f size [] = some ([], size)
  normalize_values f size (v ∷ vs) =
      let rest = normalize_values f (size + byte_length v) vs in
      if ltb 16384 (size + byte_length v) then none else elim (f v) [
        | none ↦ none
        | some v' ↦ elim rest [ none ↦ none | some (vs', n) ↦ some (v' ∷ vs', n) ]
      ]

  unfoldable pub normalize_group : (Text → Option Text) → ℕ → List Text → Option (List Text × ℕ)
  unfolding normalize_values
  normalize_group f size vs = if ltb 128 (length vs) then none else normalize_values f size vs

  abbrev pub or_default : List Text → List Text → List Text
  or_default [] d = d
  or_default (v ∷ vs) d = v ∷ vs

  abbrev pub default_methods : List Text
  default_methods = codes "GET" ∷ codes "HEAD" ∷ codes "POST" ∷ []

  abbrev pub default_headers : List Text
  default_headers = codes "Authorization" ∷ codes "Content-Type" ∷ []

  abbrev pub valid_age : Option ℕ → Bool
  valid_age none = false
  valid_age (some n) = leb n 86400

  -- `Normalize`; the outer `none` is an error.
  unfoldable pub normalize : Option CorsConfig → Option (Option CorsConfig)
  unfolding normalize_group
  normalize none = some none
  normalize (some c) =
      if is_nil c.allowed_origins || not (valid_age c.max_age)
      then none
      else elim (normalize_group normalize_origin 0 c.allowed_origins) [
        | none ↦ none
        | some (origins, a) ↦
            elim (normalize_group normalize_method a
              (or_default c.allowed_methods default_methods)) [
                | none ↦ none
                | some (methods, b) ↦
                    elim (normalize_group normalize_header b
                      (or_default c.allowed_headers default_headers)) [
                        | none ↦ none
                        | some (headers, d) ↦
                            elim (normalize_group normalize_header d c.exposed_headers) [
                              | none ↦ none
                              | some (exposed, _) ↦ some (
                                  some (record c {
                                    allowed_origins = origins;
                                    allowed_methods = methods;
                                    allowed_headers = headers;
                                    exposed_headers = exposed;
                                  }))
                            ]
                      ]
              ]
      ]
