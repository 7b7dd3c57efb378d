-- ===== src/Cors/Origins.antt =====
-- httpcors/cors.go: `New`, `Prepare` and `Preflight`. The text of an error and the headers that describe it
-- are left out. `decimal` is `strconv.FormatInt` in base 10.
use rstream_go.Base.{
  ℕ, Bool, true, false, not, ◌&&◌, ◌||◌, Option, none, some, List, [], ◌∷◌, ◌++◌, map,
  if◌then◌else◌, length, is_nil, is_some, all, Text, codes, equal, trim_space, Dict, lookup, insert,
  ◌==◌,
}
use rstream_go.Cors.{Runes, CorsConfig, normalize_origin, normalize}
use rstream_go.Cors.Response.{Header, values, split, Policy, Writer, write_header}

pub record Request : Type 0 where
  pub method : Text
  pub header : Header

abbrev pub first : List Text → Text
first [] = []
first (v ∷ _) = v

abbrev pub join : List Text → Text
join [] = []
join (v ∷ []) = v
join (v ∷ vs) = v ++ (codes ", " ++ join vs)

-- A set of the strings of a list.
unfoldable pub set_of : List Text → Dict (Unit {0})
set_of [] = []
set_of (v ∷ vs) = insert v tt (set_of vs)

-- What `Prepare` returns: its argument itself, or a writer and whether the request goes on.
pub data Prepared : Type 0 where
  passed : Prepared
  admitted : Writer → Prepared
  refused : Writer → Prepared

abbrev pub is_admitted : Prepared → Bool
is_admitted (admitted _) = true
is_admitted _ = false

abbrev pub origin_key : Text
origin_key = codes "Origin"

abbrev pub method_key : Text
method_key = codes "Access-Control-Request-Method"

module _ (runes : Runes) (decimal : ℕ → Text) where
  abbrev pub age_text : Option ℕ → Text
  age_text none = []
  age_text (some n) = decimal n

  -- `New`
  unfoldable pub new_policy : Option CorsConfig → Option (Option Policy)
  unfolding normalize set_of
  new_policy c = elim (normalize runes c) [
    | none ↦ none
    | some none ↦ some none
    | some (some n) ↦ some (
        some (record {
          origins = set_of n.allowed_origins;
          methods = set_of n.allowed_methods;
          headers = set_of (map (map runes.to_lower) n.allowed_headers);
          allow_methods = join n.allowed_methods;
          allow_headers = join n.allowed_headers;
          expose_headers = join n.exposed_headers;
          credentials = n.allow_credentials;
          age = age_text n.max_age;
        }))
  ]

module _ (runes : Runes) where
  abbrev pub target_text : Text → Text
  target_text target = elim (normalize_origin runes target) [ none ↦ [] | some t ↦ t ]

  abbrev pub is_preflight : Request → Bool
  is_preflight r =
      equal r.method (codes "OPTIONS") && not (is_nil (first (values method_key r.header)))

  -- The end of `Prepare`, for an origin that is admitted.
  unfoldable pub decide : Policy → Request → Writer → Bool → Prepared
  unfolding write_header
  decide p r w same =
      let w' = record w {
        origin = first (values origin_key r.header);
        preflight = is_preflight r;
      } in
      if not same && not (is_preflight r) && not (is_some (lookup r.method p.methods))
      then refused (write_header runes 403 w')
      else admitted w'

  -- `Prepare`, for the header that the response has so far.
  unfoldable pub prepare : Option Policy → Header → Request → Text → Prepared
  unfolding decide write_header
  prepare none h r target = passed
  prepare (some p) h r target =
      let w : Writer = record {
        policy = p;
        origin = [];
        preflight = false;
        written = false;
        header = h;
        sent = [];
      } in
      let origins = values origin_key r.header in
      if equal r.method (codes "CONNECT")
      then passed
      else if is_nil origins
      then admitted w
      else elim (normalize_origin runes (first origins)) [
        | none ↦ refused (write_header runes 403 w)
        | some origin ↦
            let same = equal origin (target_text target) in
            if not (length origins == 1) || not same && not (is_some (lookup origin p.origins))
            then refused (write_header runes 403 w)
            else decide p r w same
      ]

  abbrev pub allows_header : Policy → Text → Bool
  allows_header p name =
      runes.valid_field_name (trim_space name)
      && is_some (lookup (map runes.to_lower (trim_space name)) p.headers)

  -- `Preflight`: the status of the answer, if it answers.
  unfoldable pub preflight : Option Policy → Request → Option ℕ
  unfolding split
  preflight none r = none
  preflight (some p) r =
      let asked = values method_key r.header in
      if not (equal r.method (codes "OPTIONS"))
        || is_nil (first (values origin_key r.header))
        || is_nil (first asked)
      then none
      else if length asked == 1
          && is_some (lookup (first asked) p.methods)
          && all (λ field. all (allows_header p) (split 44 field))
              (values (codes "Access-Control-Request-Headers") r.header)
      then some 204
      else some 403
