-- ===== src/Socks/Relay.antt =====
-- socks5_proxy.go: UDP through a SOCKS5 proxy: the datagrams, the relay's address, and what is read and written.
use rstream_go.Base.{
  ℕ, zero, suc, ◌%◌, ◌^◌, ◌<◌, ◌≡◌, refl, sym, inl, inr, arith, Bool, true, not, ◌||◌, Option, none,
  some, List, [], ◌∷◌, ◌++◌, if◌then◌else◌, ◌==◌, ==_iff, is_nil, Text, codes, equal, All,
}
use rstream_go.Socks.{
  Bytes, Address, Net, IsNet, short, reserved, fragmented, Outcome, done, err, encode_address,
  read_address, cmd_udp,
}
use rstream_go.Socks.Wire.{spelled, read_address-encode, Outcome-cases}
use rstream_go.Socks.Client.{ProxyConfig, parse_target, Conn, handshake}

abbrev pub take : ℕ → Bytes → Bytes
take zero xs = []
take (suc n) [] = []
take (suc n) (x ∷ xs) = x ∷ take n xs

-- A datagram that arrives, and whether it comes from the relay, `socks5SameUDPAddr`.
pub record Arrival : Type 0 where
  pub from_relay : Bool
  pub packet : Bytes

-- `socks5RelayUDPAddr` up to its resolution; the peer's IP address is there for a TCP connection.
unfoldable pub relay_address : Option Text → Address → Option Address
unfolding equal
relay_address peer a =
    let unspecified =
      is_nil a.host || equal a.host (codes "0.0.0.0") || equal a.host (codes "::") in
    let host : Text =
      if unspecified then (elim peer [ none ↦ a.host | some ip ↦ ip ]) else a.host in
    if is_nil host || a.port == 0 then none else some (record { host = host; port = a.port })

module _ (n : Net) where
  -- `socks5BuildUDPDatagram`
  unfoldable pub build_datagram : Address → Bytes → Outcome Bytes
  unfolding encode_address
  build_datagram target payload = elim (encode_address n target) [
    | err e ↦ err e
    | done addr ↦ done (0 ∷ 0 ∷ 0 ∷ addr ++ payload)
  ]

  -- `socks5DecodeUDPDatagram`
  unfoldable pub decode_datagram : Bytes → Outcome (Bytes × Address)
  unfolding read_address
  decode_datagram (a ∷ b ∷ frag ∷ atyp ∷ r) =
      if not (a == 0) || not (b == 0)
      then err reserved
      else if not (frag == 0)
      then err fragmented
      else elim (read_address n atyp r) [
        | err e ↦ err e
        | done (addr, payload) ↦ done (payload, addr)
      ]
  decode_datagram _ = err short

  -- Whether the loop of `ReadFrom` returns the datagram: its payload.
  unfoldable pub accept : Address → Arrival → Option Bytes
  unfolding decode_datagram
  accept target p = if not p.from_relay then none else elim (decode_datagram p.packet) [
    | err _ ↦ none
    | done (payload, source) ↦ if not (source.port == target.port) then none else some payload
  ]

  -- `ReadFrom` into a buffer of this size: what is copied, and the datagrams that are left; `none` is the
  -- error behind the last one.
  unfoldable pub read_from : Address → ℕ → List Arrival → Option (Bytes × List Arrival)
  unfolding accept
  read_from target room [] = none
  read_from target room (p ∷ ps) =
      let later = read_from target room ps in
      elim (accept target p) [ none ↦ later | some payload ↦ some (take room payload, ps) ]

  -- `WriteTo`: the datagram for the relay, with the connection's target or the caller's.
  unfoldable pub write_to :
      (Text → Option (Text × Text))
      → (Text → Option ℕ)
      → Address
      → Option Text
      → Bytes
      → Option (Outcome Bytes)
  unfolding parse_target build_datagram
  write_to split atoi target addr payload = elim addr [
    | none ↦ some (build_datagram target payload)
    | some s ↦
        if is_nil s
        then some (build_datagram target payload)
        else elim (parse_target split atoi s) [
          | none ↦ none
          | some t ↦ some (build_datagram t payload)
        ]
  ]

  -- `newSOCKS5UDPConn` from its connection to the proxy on: the address of the relay with the handshake's end.
  unfoldable pub associate : ProxyConfig → Option Text → Conn → Option Address × Conn
  unfolding handshake relay_address
  associate cfg peer c =
      let (reply, c') = handshake n cfg cmd_udp (record { host = codes "0.0.0.0"; port = 0 }) c in
      (elim reply [ err _ ↦ none | done addr ↦ relay_address peer addr ], c')

  -- A datagram that is built decodes to its payload and to the address as Go spells it.
  pub datagram_round_trip :
      (t : Address) (payload packet : Bytes)
      → IsNet n
      → build_datagram t payload ≡ done packet
      → decode_datagram packet
        ≡ done (payload, record { host = spelled n t.host; port = t.port % 2 ^ 16 })
  unfolding build_datagram decode_datagram
  datagram_round_trip t payload packet v h = elim (Outcome-cases (encode_address n t)) [
    | inl (e, q) ↦ absurd (ground (arith, q, h))
    | inr (addr, q) ↦
        let p : 0 ∷ 0 ∷ 0 ∷ addr ++ payload ≡ packet = ground (arith, q, h) in
        let (atyp, body, e, r) = read_address-encode n t addr payload v q in
        rw (sym p, e, decode_datagram, r) refl
  ]

  -- What `WriteTo` sends for the connection's own target comes back through `ReadFrom`: if the relay sends a
  -- datagram that was built for the target, `ReadFrom` returns its payload, cut to the buffer, however
  -- many datagrams come before it that are not the relay's, do not decode or bear another port, and
  -- it leaves those behind it.
  pub read_from-write_to :
      (split : Text → Option (Text × Text)) (atoi : Text → Option ℕ) (t : Address)
      (payload packet : Bytes) (room : ℕ) (before after : List Arrival)
      → IsNet n
      → t.port < 2 ^ 16
      → All (λ p. accept t p ≡ none) before
      → write_to split atoi t none payload ≡ some (done packet)
      → read_from t room (before ++ (record { from_relay = true; packet = packet } ∷ after))
        ≡ some (take room payload, after)
  unfolding read_from write_to
  read_from-write_to split atoi t payload packet room [] after v b k h =
      let q = datagram_round_trip t payload packet v (ground (arith, h)) in
      let p = ==_iff (t.port % 2 ^ 16) t.port in rw (read_from, q) (ground (arith, b, p))
  read_from-write_to split atoi t payload packet room (p ∷ before) after v b (k, ks) h =
      rw (read_from, k) (read_from-write_to split atoi t payload packet room before after v b ks h)
