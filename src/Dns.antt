-- ===== src/Dns.antt =====
-- dns_resolution.go: the addresses that a dial tries, in their order. What `net` and `netip` do, and the lookup
-- of `internal/ech`, are parameters.
pub mod Rounds
pub mod Alternation
pub mod Tests
use rstream_go.Base.{
  ℕ, zero, suc, ◌+◌, ◌-◌, Bool, true, false, not, ◌&&◌, ◌||◌, Option, none, some, List, [], ◌∷◌,
  ◌++◌, if◌then◌else◌, ◌==◌, ◌>>=◌, length, get_elem?, is_nil, ltb, leb, any, Text, equal, is_some,
}

-- A `netip.Addr` behind `Unmap`: it is an IPv6 address or an IPv4 one, and it has a text.
pub record Ip : Type 0 where
  pub is6 : Bool
  pub text : Text

-- `dnsResolverConfig`
pub record ResolverConfig : Type 0 where
  pub override : Text
  pub over_tls : Bool
  pub server_name : Text
  pub dnssec_enabled : Bool
  pub force_ipv4 : Bool
  pub force_ipv6 : Bool

unfoldable pub is_enabled : ResolverConfig → Bool
is_enabled c =
    not (is_nil c.override) || c.over_tls || c.dnssec_enabled || c.force_ipv4 || c.force_ipv6

-- `net.SplitHostPort`, `netip.ParseAddr` with `Unmap`, `net.JoinHostPort`, `dnslookup.LookupHost` and
-- `LookupIPAddr` of the default resolver.
pub record Env : Type 0 where
  pub split : Text → Option (Text × Text)
  pub parse : Text → Option Ip
  pub join : Text → Text → Text
  pub lookup_host : ResolverConfig → Text → Option (List Text)
  pub lookup_default : Text → Option (List Text)

-- The variables of the loop over the looked up addresses; a family holds addresses with the port.
pub record Families : Type 0 where
  pub seen : List Text
  pub first_ipv6 : Bool
  pub same : List Text
  pub other : List Text

abbrev pub no_families : Families
no_families = record { seen = []; first_ipv6 = false; same = []; other = [] }

module _ (env : Env) (port : Text) where
  -- Its body, for an address that parses.
  unfoldable pub add_ip : Ip → Families → Families
  unfolding equal
  add_ip ip f =
      let seen = ip.text ∷ f.seen in
      let first : Bool = if length seen == 1 then ip.is6 else f.first_ipv6 in
      let entry = env.join ip.text port ∷ [] in
      let is_same = (ip.is6 && first) || not (ip.is6 || first) in
      if any (equal ip.text) f.seen
      then f
      else if is_same
      then record { seen = seen; first_ipv6 = first; same = f.same ++ entry; other = f.other }
      else record { seen = seen; first_ipv6 = first; same = f.same; other = f.other ++ entry }

  unfoldable pub collect : List Text → Families → Option Families
  unfolding add_ip
  collect [] f = some f
  collect (value ∷ values) f = do ip ← env.parse value; collect values (add_ip ip f)

abbrev pub entry_at : ℕ → List Text → List Text
entry_at i xs = elim (get_elem? xs i) [ none ↦ [] | some x ↦ x ∷ [] ]

-- The rounds of the last loop from `i` on.
unfoldable pub rounds : ℕ → ℕ → List Text → List Text → List Text
rounds zero i xs ys = []
rounds (suc left) i xs ys = entry_at i xs ++ (entry_at i ys ++ rounds left (suc i) xs ys)

abbrev pub max : ℕ → ℕ → ℕ
max a b = if ltb a b then b else a

unfoldable pub interleave : Families → List Text
unfolding rounds
interleave f = rounds (max (length f.same) (length f.other)) 0 f.same f.other

-- What `resolveDialAddresses` makes of the looked up addresses.
unfoldable pub order : Env → Text → List Text → Option (List Text)
unfolding collect interleave
order env port addresses = do
  families ← (if is_nil addresses then none else collect env port addresses no_families)
  some (interleave families)

-- A literal IP address, checked against the families that are forced.
unfoldable pub check_family : ResolverConfig → Ip → Bool
check_family c ip = not (c.force_ipv4 && ip.is6) && not (c.force_ipv6 && not ip.is6)

-- `resolveDialAddresses`; `none` is an error.
unfoldable pub resolve_dial_addresses : Env → Text → ResolverConfig → Option (List Text)
unfolding is_enabled check_family order
resolve_dial_addresses env addr cfg = do
  (host, port) ← env.split addr
  elim (env.parse host) [
    | some ip ↦ if check_family cfg ip then some (addr ∷ []) else none
    | none ↦ do
      addresses ← (if is_enabled cfg then env.lookup_host cfg host else env.lookup_default host)
      order env port addresses
  ]
