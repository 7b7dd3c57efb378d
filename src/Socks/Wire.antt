-- ===== src/Socks/Wire.antt =====
-- socks5_proxy.go: what `socks5EncodeAddress` writes, `socks5ReadAddress` reads.
use mathlib.Core.Path.{subst}
use rstream_go.Base.{
  ℕ, ◌/◌, ◌%◌, ◌^◌, ◌≤◌, ◌≡◌, ◌⊎◌, ◌||◌, none, some, [], ◌∷◌, ◌++◌, refl, inl, inr, arith, sym,
  ◌==◌, length, ltb, Text, Option-cases, append_assoc, if_rule,
}
use rstream_go.Socks.{
  Bytes, Address, Net, IsNet, Failure, Outcome, done, err, byte, put_uint16, uint16, read_full,
  encode_address, read_host, read_address, addr_ipv4, addr_ipv6, addr_domain,
}

pub Outcome-cases :
    {A : Type 0} (o : Outcome A) → ((e : Failure) × (o ≡ err e)) ⊎ ((a : A) × (o ≡ done a))
Outcome-cases (done a) = inr (a, refl)
Outcome-cases (err e) = inl (e, refl)

pub read_full-append : (xs rest : Bytes) → read_full (length xs) (xs ++ rest) ≡ done (xs, rest)
unfolding read_full
read_full-append [] rest = refl
read_full-append (x ∷ xs) rest = rw (read_full-append xs rest) refl

pub read_full_exact :
    (k : ℕ) (xs rest : Bytes) → length xs ≡ k → read_full k (xs ++ rest) ≡ done (xs, rest)
read_full_exact k xs rest h =
    subst (λ m. read_full m (xs ++ rest) ≡ done (xs, rest)) h (read_full-append xs rest)

-- The bytes of a `uint16` are its two halves.
uint16-put : (p : ℕ) → uint16 (p % 2 ^ 16 / 2 ^ 8 % 2 ^ 8) (p % 2 ^ 16 % 2 ^ 8) ≡ p % 2 ^ 16
uint16-put p = omega arith

module _ (n : Net) where
  -- The spelling of the host that is read: `String` of an IP address, a domain as it is.
  unfoldable pub spelled : Text → Text
  spelled host = elim (n.parse_ip host) [
    | none ↦ host
    | some ip ↦ elim (n.to4 ip) [
      | some v4 ↦ n.ip_text v4
      | none ↦ elim (n.to16 ip) [ some v6 ↦ n.ip_text v6 | none ↦ host ]
    ]
  ]

  -- Behind the host, the port.
  read_address-host :
      (atyp : ℕ) (r : Bytes) (host : Text) (p : ℕ) (rest : Bytes)
      → read_host n atyp r ≡ done (host, put_uint16 p ++ rest)
      → read_address n atyp r ≡ done (record { host = host; port = p % 2 ^ 16 }, rest)
  unfolding read_address
  read_address-host atyp r host p rest h = rw (h, uint16-put p) refl

  read_host_ipv4 :
      (v tail : Bytes) → length v ≡ 4 → read_host n addr_ipv4 (v ++ tail) ≡ done (n.ip_text v, tail)
  unfolding read_host
  read_host_ipv4 v tail h = rw (read_full_exact 4 v tail h) refl

  read_host_ipv6 :
      (v tail : Bytes)
      → length v ≡ 16
      → read_host n addr_ipv6 (v ++ tail) ≡ done (n.ip_text v, tail)
  unfolding read_host
  read_host_ipv6 v tail h = rw (read_full_exact 16 v tail h) refl

  read_host_domain :
      (host tail : Bytes)
      → length host ≤ 255
      → read_host n addr_domain (byte (length host) ∷ host ++ tail) ≡ done (host, tail)
  unfolding read_host
  read_host_domain host tail h = read_full_exact (byte (length host)) host tail (omega (arith, h))

  -- The bytes start with a type, and the rest reads back as the address.
  abbrev pub ReadsBack : Bytes → Bytes → Text → ℕ → Type 0
  ReadsBack bytes rest host p =
      (atyp : ℕ) × (body : Bytes) × (bytes ≡ atyp ∷ body)
      × (read_address n atyp (body ++ rest)
          ≡ done (record { host = host; port = p % 2 ^ 16 }, rest))

  reads_back :
      (atyp : ℕ) (body rest : Bytes) (host : Text) (p : ℕ)
      → read_host n atyp (body ++ (put_uint16 p ++ rest)) ≡ done (host, put_uint16 p ++ rest)
      → (bytes : Bytes) → done (atyp ∷ body ++ put_uint16 p) ≡ done bytes
      → ReadsBack bytes rest host p
  reads_back atyp body rest host p h bytes e = (
    atyp,
    body ++ put_uint16 p,
    sym (ground (arith, e)),
    rw (append_assoc body (put_uint16 p) rest)
        (read_address-host atyp (body ++ (put_uint16 p ++ rest)) host p rest h),
  )

  pub read_address-encode :
      (t : Address) (bytes rest : Bytes)
      → IsNet n
      → encode_address n t ≡ done bytes
      → ReadsBack bytes rest (spelled t.host) t.port
  unfolding encode_address spelled
  read_address-encode t bytes rest v =
      let P =
        λ (x : Outcome Bytes) (host : Text). x ≡ done bytes → ReadsBack bytes rest host t.port in
      elim (Option-cases (n.parse_ip t.host)) [
        | inl e ↦
            rw (encode_address, spelled, e)
              (if_rule (λ x. P x t.host) (length t.host == 0 || ltb 255 (length t.host)) _ _
                (λ _ h. absurd (cc))
                (λ k.
                  reads_back addr_domain (byte (length t.host) ∷ t.host) rest t.host t.port
                    (read_host_domain t.host _ (ground (arith, k))) bytes))
        | inr (ip, e) ↦
            rw (encode_address, spelled, e)
              (elim (Option-cases (n.to4 ip)) [
                | inr (w, q) ↦ rw q (
                    reads_back addr_ipv4 w rest (n.ip_text w) t.port
                      (read_host_ipv4 w _ (v.to4_length ip w q)) bytes)
                | inl q ↦ rw q (elim (Option-cases (n.to16 ip)) [
                  | inr (w, r) ↦ rw r (
                      reads_back addr_ipv6 w rest (n.ip_text w) t.port
                        (read_host_ipv6 w _ (v.to16_length ip w r)) bytes)
                  | inl r ↦ rw r (λ h. absurd (cc))
                ])
              ])
      ]
