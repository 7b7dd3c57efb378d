-- ===== src/Dns/Alternation.antt =====
-- dns_resolution.go: the order of the addresses against its description.
use rstream_go.Base.{
  suc, ◌≤◌, ◌≡◌, refl, ◌∙◌, ap, inl, inr, arith, Bool, true, false, not, ◌&&◌, ◌||◌, Option, none,
  some, List, [], ◌∷◌, ◌++◌, append_assoc, append-nil, if◌then◌else◌, ◌==◌, ◌>>=◌, length, any,
  Text, equal, Bool-cases, Option-cases,
}
use rstream_go.Dns.Rounds.{alternate, interleave-alternate}
use rstream_go.Dns.{
  Ip, ResolverConfig, Env, Families, no_families, add_ip, collect, order, resolve_dial_addresses,
  is_enabled,
}

-- Each address of which no earlier one has the text.
unfoldable pub distinct : List Text → List Ip → List Ip
distinct seen [] = []
distinct seen (ip ∷ ips) =
    let rest = distinct (ip.text ∷ seen) ips in
    if any (equal ip.text) seen then distinct seen ips else ip ∷ rest

abbrev same_bit : Bool → Bool → Bool
same_bit a b = (a && b) || not (a || b)

-- The addresses of one family, with the port.
unfoldable pub of_family : Env → Text → Bool → List Ip → List Text
of_family env port b [] = []
of_family env port b (ip ∷ ips) =
    let rest = of_family env port b ips in
    if same_bit ip.is6 b then env.join ip.text port ∷ rest else rest

unfoldable pub parse_all : Env → List Text → Option (List Ip)
parse_all env [] = some []
parse_all env (v ∷ vs) = do ip ← env.parse v; ips ← parse_all env vs; some (ip ∷ ips)

-- The texts that were seen behind these addresses.
seen_after : List Text → List Ip → List Text
seen_after seen [] = seen
seen_after seen (ip ∷ ips) =
    let rest = seen_after (ip.text ∷ seen) ips in
    if any (equal ip.text) seen then seen_after seen ips else rest

seen_again :
    (ip : Ip) (ips : List Ip) (seen : List Text)
    → any (equal ip.text) seen ≡ true
    → (seen_after seen (ip ∷ ips) ≡ seen_after seen ips)
      × (distinct seen (ip ∷ ips) ≡ distinct seen ips)
unfolding seen_after distinct
seen_again ip ips seen h = (ground (arith, h), ground (arith, h))

seen_first :
    (ip : Ip) (ips : List Ip) (seen : List Text)
    → any (equal ip.text) seen ≡ false
    → (seen_after seen (ip ∷ ips) ≡ seen_after (ip.text ∷ seen) ips)
      × (distinct seen (ip ∷ ips) ≡ ip ∷ distinct (ip.text ∷ seen) ips)
unfolding seen_after distinct
seen_first ip ips seen h = (ground (arith, h), ground (arith, h))

same_bit-not : (a b : Bool) → same_bit a (not b) ≡ not (same_bit a b)
same_bit-not a b = ground arith

bind_cong :
    {A B : Type 0} (o : Option A) {f g : A → Option B}
    → ((a : A) → f a ≡ g a)
    → (o >>= f) ≡ (o >>= g)
bind_cong none h = refl
bind_cong (some a) h = h a

module _ (env : Env) (port : Text) where
  of_family_cons :
      (b : Bool) (ip : Ip) (ips : List Ip)
      → of_family env port b (ip ∷ ips)
        ≡ (if same_bit ip.is6 b then env.join ip.text port ∷ [] else []) ++ of_family env port b ips
  unfolding of_family
  of_family_cons b ip ips = ground arith

  abbrev after : Families → List Ip → Families
  after f ips = record {
    seen = seen_after f.seen ips;
    first_ipv6 = f.first_ipv6;
    same = f.same ++ of_family env port f.first_ipv6 (distinct f.seen ips);
    other = f.other ++ of_family env port (not f.first_ipv6) (distinct f.seen ips);
  }

  after-add_ip :
      (ip : Ip) (ips : List Ip) (f : Families)
      → 1 ≤ length f.seen
      → after (add_ip env port ip f) ips ≡ after f (ip ∷ ips)
  unfolding add_ip
  after-add_ip ip ips f h = elim (Bool-cases (any (equal ip.text) f.seen)) [
    | inl e ↦ let (p, q) = seen_again ip ips f.seen e in rw (e, p, q) refl
    | inr e ↦
        let (p, q) = seen_first ip ips f.seen e in
        let ds = distinct (ip.text ∷ f.seen) ips in
        let b = f.first_ipv6 in
        let k : (if suc (length f.seen) == 1 then ip.is6 else b) ≡ b = ground (arith, h) in
        let m = same_bit-not ip.is6 b in
        let c = of_family_cons b ip ds in
        let d = of_family_cons (not b) ip ds in
        elim (Bool-cases (same_bit ip.is6 b)) [
          | inl s ↦
              rw
                (
                  e,
                  p,
                  q,
                  k,
                  c,
                  d,
                  m,
                  s,
                  append_assoc f.same (env.join ip.text port ∷ []) (of_family env port b ds),
                )
                refl
          | inr s ↦
              rw
                (
                  e,
                  p,
                  q,
                  k,
                  c,
                  d,
                  m,
                  s,
                  append_assoc f.other (env.join ip.text port ∷ []) (of_family env port (not b) ds),
                )
                refl
        ]
  ]

  seen-add_ip :
      (ip : Ip) (f : Families) → 1 ≤ length f.seen → 1 ≤ length (add_ip env port ip f).seen
  unfolding add_ip
  seen-add_ip ip f h = ground (arith, h)

  collect-after :
      (vs : List Text) (f : Families)
      → 1 ≤ length f.seen
      → collect env port vs f ≡ (parse_all env vs >>= λ ips. some (after f ips))
  unfolding collect parse_all seen_after distinct of_family
  collect-after [] f h = rw (append-nil f.same, append-nil f.other) refl
  collect-after (v ∷ vs) f h = elim (Option-cases (env.parse v)) [
    | inl e ↦ rw e refl
    | inr (ip, e) ↦ rw e (collect-after vs (add_ip env port ip f) (seen-add_ip ip f h) ∙ parsed ip)
  ]
    where
      parsed :
          (ip : Ip)
          → (parse_all env vs >>= λ ips. some (after (add_ip env port ip f) ips))
            ≡ ((parse_all env vs >>= λ ips. some (ip ∷ ips)) >>= λ ips. some (after f ips))
      parsed ip = elim (Option-cases (parse_all env vs)) [
        | inl q ↦ rw q refl
        | inr (ips, q) ↦ rw q (ap some (after-add_ip ip ips f h))
      ]

  -- The order that a dial wants, of the parsed addresses.
  unfoldable pub preferred : List Ip → Option (List Text)
  preferred [] = none
  preferred (ip ∷ ips) =
      let ds = distinct [] (ip ∷ ips) in
      some (alternate (of_family env port ip.is6 ds) (of_family env port (not ip.is6) ds))

  add_first :
      (ip : Ip)
      → add_ip env port ip no_families ≡ record {
        seen = ip.text ∷ [];
        first_ipv6 = ip.is6;
        same = env.join ip.text port ∷ [];
        other = [];
      }
  unfolding add_ip
  add_first ip = elim (Bool-cases ip.is6) [ inl e ↦ rw e refl | inr e ↦ rw e refl ]

  order_first :
      (ip : Ip) (ips : List Ip)
      → (after (add_ip env port ip no_families) ips
          ≡ after (record no_families { first_ipv6 = ip.is6 }) (ip ∷ ips))
  order_first ip ips =
      let (p, q) = seen_first ip ips [] refl in
      let ds = distinct (ip.text ∷ []) ips in
      let c = of_family_cons ip.is6 ip ds in
      let d = of_family_cons (not ip.is6) ip ds in
      let s : same_bit ip.is6 ip.is6 ≡ true = ground arith in
      let t : same_bit ip.is6 (not ip.is6) ≡ false = ground arith in
      rw (add_first ip, p, q, c, d, s, t) refl

  order-preferred : (vs : List Text) → order env port vs ≡ (parse_all env vs >>= preferred)
  unfolding order collect parse_all preferred
  order-preferred [] = refl
  order-preferred (v ∷ vs) = elim (Option-cases (env.parse v)) [
    | inl e ↦ rw e refl
    | inr (ip, e) ↦
        let one : 1 ≤ length (add_ip env port ip no_families).seen =
          rw (add_first ip) (omega arith) in
        rw (order, collect, e, collect-after vs (add_ip env port ip no_families) one)
          (elim (Option-cases (parse_all env vs)) [
            | inl q ↦ rw q refl
            | inr (ips, q) ↦ rw q (
                ap some (
                  interleave-alternate (after (add_ip env port ip no_families) ips)
                  ∙ ap (λ f. alternate f.same f.other) (order_first ip ips)))
          ])
  ]

  -- For a host that is no IP address, the addresses to dial are those of the lookup, parsed, each text
  -- once, at its first place, in two families, the first one's before the other's in turns, and behind
  -- these what is left of the longer family, all with the port; there is an error exactly if the
  -- lookup has one, if it is empty or if one of its addresses does not parse. The lookup is the
  -- configured resolver's where an option asks for it.
  pub resolve_dial_addresses-preferred :
      (cfg : ResolverConfig) (addr host : Text)
      → env.split addr ≡ some (host, port)
      → env.parse host ≡ none
      → resolve_dial_addresses env addr cfg ≡ (
          (if is_enabled cfg then env.lookup_host cfg host else env.lookup_default host)
          >>= λ addresses. parse_all env addresses >>= preferred)
  unfolding resolve_dial_addresses
  resolve_dial_addresses-preferred cfg addr host h k =
      rw (resolve_dial_addresses, h, k)
        (bind_cong (if is_enabled cfg then env.lookup_host cfg host else env.lookup_default host)
          order-preferred)
