-- ===== src/Dns/Tests.antt =====
-- dns_resolution.go: a run on concrete input.
use rstream_go.Base.{
  ◌≡◌, refl, false, not, none, some, [], ◌∷◌, ◌++◌, if◌then◌else◌, ◌>>=◌, codes, equal, get_elem?,
}
use rstream_go.Dns.{ResolverConfig, Env, resolve_dial_addresses, is_enabled}
use rstream_go.Dns.Alternation
use rstream_go.Dns.Alternation.{parse_all, preferred}

-- A lookup of two IPv6 addresses, one of them twice, and one IPv4 address.
abbrev env : Env
env = record {
  split = λ s. some (codes "h", codes "80");
  parse = λ s.
      if equal s (codes "h")
      then none
      else some (record { is6 = not (equal s (codes "c")); text = s });
  join = λ h p. h ++ (58 ∷ p);
  lookup_host = λ _ _. none;
  lookup_default = λ _. some (codes "a" ∷ codes "b" ∷ codes "a" ∷ codes "c" ∷ []);
}

abbrev plain : ResolverConfig
plain = record {
  override = [];
  over_tls = false;
  server_name = [];
  dnssec_enabled = false;
  force_ipv4 = false;
  force_ipv6 = false;
}

host_is_name : env.parse (codes "h") ≡ none
unfolding equal
host_is_name = refl

resolve_dial_addresses-preferred_example : resolve_dial_addresses env (codes "h:80") plain ≡ (
    (if is_enabled plain then env.lookup_host plain (codes "h") else env.lookup_default (codes "h"))
    >>= λ addresses. parse_all env addresses >>= preferred env (codes "80"))
resolve_dial_addresses-preferred_example =
    Alternation.resolve_dial_addresses-preferred env (codes "80") plain (codes "h:80") (codes "h")
      refl host_is_name

in_turns :
    resolve_dial_addresses env (codes "h:80") plain
    ≡ some (codes "a:80" ∷ codes "c:80" ∷ codes "b:80" ∷ [])
unfolding resolve_dial_addresses equal get_elem?
in_turns = refl
