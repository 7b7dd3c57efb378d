-- ===== src/Cors/Tests.antt =====
-- A policy with one origin, and requests under it.
use rstream_go.Base.{
  ℕ, ◌+◌, ◌-◌, true, false, not, ◌&&◌, none, some, [], ◌∷◌, ◌≡◌, ◌↔◌, refl, map, leb, if◌then◌else◌,
  is_nil, codes, equal, has_prefix, lookup,
}
use rstream_go.Cors.{
  Url, Runes, CorsConfig, normalize, normalize_origin, normalize_method, normalize_header,
  normalize_values, normalize_group, trim_suffix,
}
use rstream_go.Cors.Response.{
  Policy, Writer, vary_name, origin_name, owned, write_header, granted, single,
}
use rstream_go.Cors.Owned.{write_header-granted}
use rstream_go.Cors.Limits.{IsBounded, normalize-IsBounded}
use rstream_go.Cors.Origins.{Request, is_admitted, prepare}
use rstream_go.Cors.Admission.{IsAdmissible, prepare_iff}

abbrev lower : ℕ → ℕ
lower c = if leb 65 c && leb c 90 then c + 32 else c

abbrev upper : ℕ → ℕ
upper c = if leb 97 c && leb c 122 then c - 32 else c

abbrev url_a : Url
url_a = record {
  scheme = codes "http";
  host = codes "A";
  hostname = codes "A";
  port = [];
  has_user = false;
  path = [];
  raw_query = [];
  force_query = false;
  fragment = [];
}

-- The one URL of the tests is "http://A".
abbrev ascii : Runes
ascii = record {
  parse_url = λ v. if equal v (codes "http://A") then some url_a else none;
  to_lower = lower;
  to_upper = upper;
  equal_fold = λ a b. equal (map lower a) (map lower b);
  atoi = λ _. none;
  canonical_key = λ v. v;
  valid_field_name = λ v. not (is_nil v);
}

abbrev config_a : CorsConfig
config_a = record {
  allowed_origins = codes "http://A" ∷ [];
  allowed_methods = codes "put" ∷ [];
  allowed_headers = [];
  exposed_headers = [];
  allow_credentials = true;
  max_age = some 60;
}

abbrev normal_a : CorsConfig
normal_a = record {
  allowed_origins = codes "http://a" ∷ [];
  allowed_methods = codes "PUT" ∷ [];
  allowed_headers = codes "Authorization" ∷ codes "Content-Type" ∷ [];
  exposed_headers = [];
  allow_credentials = true;
  max_age = some 60;
}

config_a-normalize : normalize ascii (some config_a) ≡ some (some normal_a)
unfolding normalize normalize_group normalize_values normalize_origin normalize_method
    normalize_header trim_suffix equal
config_a-normalize = refl

normalize-IsBounded_example : IsBounded ascii config_a normal_a
normalize-IsBounded_example = normalize-IsBounded ascii config_a normal_a config_a-normalize

abbrev policy_a : Policy
policy_a = record {
  origins = (codes "http://a", tt) ∷ [];
  methods = (codes "PUT", tt) ∷ [];
  headers = [];
  allow_methods = codes "PUT";
  allow_headers = [];
  expose_headers = [];
  credentials = true;
  age = codes "60";
}

abbrev request_a : Request
request_a = record { method = codes "PUT"; header = (codes "Origin", codes "http://A" ∷ []) ∷ [] }

put_not_connect : equal request_a.method (codes "CONNECT") ≡ false
unfolding equal
put_not_connect = refl

prepare_iff_example :
    (is_admitted (prepare ascii (some policy_a) [] request_a (codes "http://b")) ≡ true)
    ↔ IsAdmissible ascii policy_a request_a (codes "http://b")
prepare_iff_example = prepare_iff ascii policy_a [] request_a (codes "http://b") put_not_connect

-- A writer whose application has set the origin for everyone.
abbrev writer_a : Writer
writer_a = record {
  policy = policy_a;
  origin = codes "http://A";
  preflight = false;
  written = false;
  header = (origin_name, codes "*" ∷ []) ∷ [];
  sent = [];
}

vary-not_owned : owned ascii vary_name ≡ false
unfolding has_prefix
vary-not_owned = refl

origin-owned : owned ascii origin_name ≡ true
unfolding has_prefix
origin-owned = refl

write_header-granted_example :
    lookup origin_name (write_header ascii 200 writer_a).header
    ≡ single (granted ascii writer_a 200 origin_name)
write_header-granted_example =
    write_header-granted ascii 200 writer_a origin_name vary-not_owned refl origin-owned
