-- ===== src/Socks/Transcript.antt =====
-- socks5_proxy.go: what the handshake writes, and what it reads.
use rstream_go.Base.{
  ℕ, ◌%◌, ◌^◌, ◌≡◌, refl, ◌∙◌, ap, Bool, true, false, List, [], ◌∷◌, ◌++◌, append-nil,
}
use rstream_go.Socks.{
  Bytes, Address, Net, IsNet, Outcome, done, err, encode_address, version, success,
}
use rstream_go.Socks.Wire.{spelled, read_address-encode}
use rstream_go.Socks.Client.{
  ProxyConfig, Conn, Exec, ◌>>=◌, write, reading, read_pair, greeting, user_pass_request, user_pass,
  use_method, negotiate, build_request, read_reply, check_status, exchange, send_built, ask,
  handshake,
}

abbrev pub conn : Bytes → Bytes → List Bool → Conn
conn i o ws = record { incoming = i; outgoing = o; writes = ws }

-- What the proxy sends before the reply, and what the client sends by then, where the proxy asks for the
-- credentials or not.
abbrev pub answers : Bool → Bytes
answers true = version ∷ 2 ∷ 1 ∷ 0 ∷ []
answers false = version ∷ 0 ∷ []

abbrev pub introduction : Bool → ProxyConfig → Bytes
introduction true cfg = user_pass_request cfg.username cfg.password
introduction false cfg = []

abbrev pub writes_left : Bool → List Bool → List Bool
writes_left true ws = ws
writes_left false ws = true ∷ ws

bind_done :
    {A B : Type 0} (m : Exec A) (f : A → Exec B) (c d : Conn) (a : A)
    → m c ≡ (done a, d)
    → (m >>= f) c ≡ f a d
bind_done m f c d a h = ap (λ x. elim x.0 [ done b ↦ f b x.1 | err e ↦ (err e, x.1) ]) h

reading_done :
    {A : Type 0} (r : Bytes → Outcome (A × Bytes)) (c : Conn) (a : A) (left : Bytes)
    → r c.incoming ≡ done (a, left)
    → reading r c ≡ (done a, record c { incoming = left })
unfolding reading
reading_done r c a left h = rw (reading, h) refl

negotiate_ok :
    (asks : Bool) (cfg : ProxyConfig) (i o : Bytes) (ws : List Bool)
    → (asks ≡ true → cfg.auth ≡ true)
    → negotiate cfg (conn (answers asks ++ i) o (true ∷ true ∷ ws))
      ≡ (done tt, conn i ((o ++ greeting cfg) ++ introduction asks cfg) (writes_left asks ws))
unfolding negotiate use_method user_pass write reading read_pair
negotiate_ok true cfg i o ws h = rw (h refl) refl
negotiate_ok false cfg i o ws h = rw (append-nil (o ++ greeting cfg)) refl

module _ (n : Net) where
  read_reply_ok :
      (bound : Address) (reply rest : Bytes)
      → IsNet n
      → encode_address n bound ≡ done reply
      → read_reply n (version ∷ success ∷ 0 ∷ reply ++ rest)
        ≡ done ((success, record { host = spelled n bound.host; port = bound.port % 2 ^ 16 }), rest)
  unfolding read_reply
  read_reply_ok bound reply rest v k =
      let (atyp, body, e, q) = read_address-encode n bound reply rest v k in
      rw (e, read_reply, q) refl

  build_request_ok :
      (command : ℕ) (target : Address) (request : Bytes)
      → encode_address n target ≡ done request
      → build_request n command target ≡ done (version ∷ command ∷ 0 ∷ request)
  unfolding build_request
  build_request_ok command target request h = rw (build_request, h) refl

  ask_ok :
      (command : ℕ) (target bound : Address) (request reply rest o : Bytes) (ws : List Bool)
      → IsNet n
      → encode_address n target ≡ done request
      → encode_address n bound ≡ done reply
      → ask n command target (conn (version ∷ success ∷ 0 ∷ reply ++ rest) o (true ∷ ws)) ≡ (
        done (record { host = spelled n bound.host; port = bound.port % 2 ^ 16 }),
        conn rest (o ++ (version ∷ command ∷ 0 ∷ request)) ws,
      )
  unfolding ask send_built exchange write
  ask_ok command target bound request reply rest o ws v h k =
      let addr : Address = record { host = spelled n bound.host; port = bound.port % 2 ^ 16 } in
      let c = conn (version ∷ success ∷ 0 ∷ reply ++ rest) o (true ∷ ws) in
      let d =
        conn (version ∷ success ∷ 0 ∷ reply ++ rest) (o ++ (version ∷ command ∷ 0 ∷ request)) ws in
      ap (λ x. send_built n x c) (build_request_ok command target request h)
      ∙ bind_done (reading (read_reply n)) (check_status n) d
          (conn rest (o ++ (version ∷ command ∷ 0 ∷ request)) ws) (success, addr)
          (reading_done (read_reply n) d (success, addr) rest (read_reply_ok bound reply rest v k))

  -- With a proxy that works, the handshake succeeds: where the target can be encoded, the proxy takes no
  -- authentication, or asks for the credentials and they are configured, and reports success with any
  -- address that can be encoded, the client has written the greeting, the credentials exactly when they
  -- were asked for, and the request, and it has read the proxy's answers and not one byte of the
  -- tunnelled stream behind them.
  pub handshake_complete :
      (cfg : ProxyConfig) (asks : Bool) (command : ℕ) (target bound : Address)
      (request reply rest : Bytes)
      → IsNet n
      → (asks ≡ true → cfg.auth ≡ true)
      → encode_address n target ≡ done request
      → encode_address n bound ≡ done reply
      → handshake n cfg command target (
          conn
            (answers asks ++ (version ∷ success ∷ 0 ∷ reply ++ rest))
            []
            (true ∷ true ∷ true ∷ []))
        ≡ (
          done (record { host = spelled n bound.host; port = bound.port % 2 ^ 16 }),
          conn rest
              ((greeting cfg ++ introduction asks cfg) ++ (version ∷ command ∷ 0 ∷ request))
              (writes_left asks []),
        )
  unfolding handshake
  handshake_complete cfg true command target bound request reply rest v h e k =
      let i = version ∷ success ∷ 0 ∷ reply ++ rest in
      bind_done (negotiate cfg) (λ _. ask n command target)
        (conn (answers true ++ i) [] (true ∷ true ∷ true ∷ [])) _ tt
        (negotiate_ok true cfg i [] (true ∷ []) h)
      ∙ ask_ok command target bound request reply rest (greeting cfg ++ introduction true cfg) [] v
          e k
  handshake_complete cfg false command target bound request reply rest v h e k =
      let i = version ∷ success ∷ 0 ∷ reply ++ rest in
      bind_done (negotiate cfg) (λ _. ask n command target)
        (conn (answers false ++ i) [] (true ∷ true ∷ true ∷ [])) _ tt
        (negotiate_ok false cfg i [] (true ∷ []) h)
      ∙ ask_ok command target bound request reply rest (greeting cfg ++ introduction false cfg)
          (true ∷ []) v e k
