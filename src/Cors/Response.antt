-- ===== src/Cors/Response.antt =====
-- httpcors/cors.go: `responseWriter.WriteHeader` and `addVary`. `sent` lists the statuses passed on.
use rstream_go.Base.{
  ℕ, Bool, not, ◌&&◌, ◌||◌, Option, none, some, List, [], ◌∷◌, ◌++◌, map, ltb, leb, if◌then◌else◌,
  ◌==◌, is_nil, Text, codes, equal, has_prefix, trim_space, Dict, lookup, insert, any,
}
use rstream_go.Cors.{Runes}

abbrev pub Header : Type 0
Header = Dict (List Text)

abbrev pub values : Text → Header → List Text
values name h = elim (lookup name h) [ none ↦ [] | some vs ↦ vs ]

-- `strings.Split` at a character.
unfoldable pub split : ℕ → Text → List Text
split sep [] = [] ∷ []
split sep (c ∷ s) =
    let rest = split sep s in
    if c == sep then [] ∷ rest else elim rest [ [] ↦ (c ∷ []) ∷ [] | w ∷ ws ↦ (c ∷ w) ∷ ws ]

-- What a writer reads of its policy.
pub record Policy : Type 0 where
  pub origins : Dict (Unit {0})
  pub methods : Dict (Unit {0})
  pub headers : Dict (Unit {0})
  pub allow_methods : Text
  pub allow_headers : Text
  pub expose_headers : Text
  pub credentials : Bool
  pub age : Text

pub record Writer : Type 0 where
  pub policy : Policy
  pub origin : Text
  pub preflight : Bool
  pub written : Bool
  pub header : Header
  pub sent : List ℕ

abbrev pub vary_name : Text
vary_name = codes "Vary"

abbrev pub origin_name : Text
origin_name = codes "Access-Control-Allow-Origin"

abbrev pub credentials_name : Text
credentials_name = codes "Access-Control-Allow-Credentials"

abbrev pub methods_name : Text
methods_name = codes "Access-Control-Allow-Methods"

abbrev pub headers_name : Text
headers_name = codes "Access-Control-Allow-Headers"

abbrev pub age_name : Text
age_name = codes "Access-Control-Max-Age"

abbrev pub expose_name : Text
expose_name = codes "Access-Control-Expose-Headers"

-- `if b { h.Set(name, value) }`
unfoldable pub grant : Bool → Text → Text → Header → Header
grant b name value h = if b then insert name (value ∷ []) h else h

-- A list of one value, as a header holds it.
abbrev pub single : Option Text → Option (List Text)
single none = none
single (some v) = some (v ∷ [])

module _ (runes : Runes) where
  -- The names that the policy owns.
  abbrev pub owned : Text → Bool
  owned name = has_prefix (map runes.to_lower name) (codes "access-control-")

  -- The loop that deletes what the application has set.
  unfoldable pub strip : Header → Header
  strip [] = []
  strip ((name, vs) ∷ h) = if owned name then strip h else (name, vs) ∷ strip h

  abbrev pub names_token : Text → Text → Bool
  names_token value token =
      runes.equal_fold (trim_space token) value || equal (trim_space token) (codes "*")

  -- `addVary`
  unfoldable pub add_vary : Text → Header → Header
  unfolding split
  add_vary value h =
      if any (λ field. any (names_token value) (split 44 field)) (values vary_name h)
      then h
      else insert vary_name (values vary_name h ++ (value ∷ [])) h

  abbrev pub vary_all : Bool → Header → Header
  vary_all preflight h =
      let h' = add_vary (codes "Origin") h in
      if preflight
      then add_vary (codes "Access-Control-Request-Headers")
          (add_vary (codes "Access-Control-Request-Method") h')
      else h'

  abbrev pub is_success : ℕ → Bool
  is_success status = leb 200 status && ltb status 300

  -- The headers of the policy.
  unfoldable pub grant_all : Writer → ℕ → Header → Header
  unfolding grant
  grant_all w status h =
      let p = w.policy in
      let cross = not (is_nil w.origin) in
      let full = cross && (w.preflight && is_success status) in
      let exposes =
        cross
        && not (w.preflight && is_success status)
        && (not w.preflight && not (is_nil p.expose_headers)) in
      let h1 = grant cross origin_name w.origin h in
      let h2 = grant (cross && p.credentials) credentials_name (codes "true") h1 in
      let h3 = grant full methods_name p.allow_methods h2 in
      let h4 = grant full headers_name p.allow_headers h3 in
      let h5 = grant full age_name p.age h4 in grant exposes expose_name p.expose_headers h5

  -- `WriteHeader`
  unfoldable pub write_header : ℕ → Writer → Writer
  unfolding strip add_vary grant_all
  write_header status w = if w.written then w else record w {
    header = grant_all w status (vary_all w.preflight (strip w.header));
    written = leb 200 status || status == 101;
    sent = w.sent ++ (status ∷ []);
  }

  -- What a client is told under a name that the policy owns.
  unfoldable pub granted : Writer → ℕ → Text → Option Text
  granted w status name =
      if is_nil w.origin
      then none
      else if equal expose_name name && not (w.preflight || is_nil w.policy.expose_headers)
      then some w.policy.expose_headers
      else if equal age_name name && (w.preflight && is_success status)
      then some w.policy.age
      else if equal headers_name name && (w.preflight && is_success status)
      then some w.policy.allow_headers
      else if equal methods_name name && (w.preflight && is_success status)
      then some w.policy.allow_methods
      else if equal credentials_name name && w.policy.credentials
      then some (codes "true")
      else if equal origin_name name
      then some w.origin
      else none
