-- ===== src/Turn/Tests.antt =====
-- turn.go: credentials on concrete input.
use rstream_go.Base.{
  ℕ, ◌+◌, ◌≤◌, ◌≡◌, refl, arith, true, Option, none, some, [], ◌∷◌, ◌++◌, Text, codes, trim_space,
  trim_left, trim_right, is_space,
}
use rstream_go.Turn.{
  Options, Claims, Credentials, validate_ttl, check_claims, create_pat, username_of, valid_target,
  valid_component, valid_domain, split_at, normalize_pat_ttl, normalize_ttl, signed, turn_urls,
}
use rstream_go.Turn.Lifetime
use rstream_go.Turn.Usernames

-- Numbers are printed in unary, and the keyed hash is constant.
abbrev unary : ℕ → Text
unary n = codes "1"

abbrev mac : Text → Text → Text → Option Text
mac _ _ _ = some (codes "m")

abbrev same : Text → Text
same s = s

abbrev options : Options
options = record {
  project_endpoint = codes "p";
  cluster_domain = codes "a.b";
  turn_domain = [];
  turn_realm = [];
  turn_port = some 0;
  turns_port = some 0;
  ttl = 0;
  client_id = [];
}

abbrev claims : Claims
claims = record {
  all_permissions = true;
  kind = codes "pat";
  token_endpoint = codes "t";
  legacy_token_endpoint = [];
  permissions = [];
  expires_at = some 1060;
}

abbrev url : Text → Text → Text
url scheme transport = scheme ++ codes ":a.b:1?transport=" ++ transport

-- The token has one minute left.
abbrev credentials : Credentials
credentials = record {
  username = codes "v1:1:pat:p:t";
  credential = codes "m";
  urls =
      url (codes "turn") (codes "udp")
      ∷ url (codes "turn") (codes "tcp")
      ∷ url (codes "turns") (codes "udp")
      ∷ url (codes "turns") (codes "tcp")
      ∷ [];
  ttl = 60;
}

created : create_pat unary same mac options (codes "x") claims 1000 ≡ some credentials
unfolding create_pat valid_target valid_component valid_domain split_at normalize_pat_ttl
    normalize_ttl signed turn_urls trim_space trim_left trim_right is_space
created = refl

checked : check_claims claims ≡ some claims
unfolding check_claims valid_component trim_space trim_left trim_right is_space
checked = refl

create_pat_lifetime_example :
    (1 ≤ 60)
    × (60 ≤ 3600)
    × (1000 + 60 ≤ 1060)
    × (codes "v1:1:pat:p:t"
        ≡ username_of unary same 1060
            (codes "pat")
            (trim_space options.project_endpoint)
            (codes "t"))
create_pat_lifetime_example =
    Lifetime.create_pat_lifetime unary same mac options (codes "x") claims 1000 1060 credentials
      (unfold validate_ttl in refl) refl (omega arith) (omega arith) (omega arith) (omega arith)
      created

create_pat_fields_example :
    split_at 58 (codes "v1:1:pat:p:t")
    ≡ codes "v1" ∷ codes "1" ∷ codes "pat" ∷ trim_space options.project_endpoint ∷ codes "t" ∷ []
create_pat_fields_example =
    Usernames.create_pat_fields unary same mac options (codes "x") claims claims 1000 credentials
      (λ n. refl) checked created

-- A token that ends 292 years and 3 months from now: the product wraps, and the token counts as expired.
far_token : normalize_pat_ttl 0 (some 9223373037) 1000 ≡ none
unfolding normalize_pat_ttl normalize_ttl
far_token = refl
