-- ===== src/Socks/Client.antt =====
-- socks5_proxy.go: the configuration of a SOCKS5 proxy, and the handshake on a connection to it. Parsing a URL and a host
-- with a port, joining them and `strconv.Atoi` are parameters.
use rstream_go.Base.{
  ℕ, Bool, true, false, not, ◌&&◌, ◌||◌, Option, none, some, List, [], ◌∷◌, ◌++◌, if◌then◌else◌,
  ◌==◌, length, is_nil, ltb, Text, codes, equal, has_prefix,
}
use rstream_go.Socks.{
  Bytes, Address, Net, Failure, write_failed, read_failed, no_credentials, no_method, auth_failed,
  bad_version, bad_method, bad_reserved, refused_with, Outcome, done, err, byte, encode_address,
  read_address, version, no_auth, user_pass_auth, no_acceptable, success, cmd_connect,
}

-- What `url.Parse` tells of a URL; the user has a name and maybe a password.
pub record Url : Type 0 where
  pub scheme : Text
  pub hostname : Text
  pub port : Text
  pub user : Option (Text × Option Text)

-- `socks5ProxyConfig`
pub record ProxyConfig : Type 0 where
  pub address : Text
  pub username : Text
  pub password : Text
  pub auth : Bool

-- `strings.Contains` of "://"
unfoldable pub has_scheme : Text → Bool
has_scheme [] = false
has_scheme (c ∷ s) = has_prefix (c ∷ s) (codes "://") || has_scheme s

-- The credentials: the configured ones, which come together, else those of the URL.
unfoldable pub choose_credentials :
    Option Text → Option Text → Option (Text × Option Text) → Option (Bool × Text × Text)
choose_credentials (some u) (some p) _ = some (true, u, p)
choose_credentials none none none = some (false, [], [])
choose_credentials none none (some (u, none)) = some (true, u, [])
choose_credentials none none (some (u, some p)) = some (true, u, p)
choose_credentials _ _ _ = none

-- `socks5ProxyConfigFromRaw`
unfoldable pub config_from_raw :
    (Text → Option Url)
    → (Text → Text → Text)
    → Text
    → Option Text
    → Option Text
    → Option ProxyConfig
unfolding has_scheme choose_credentials equal
config_from_raw parse join raw username password =
    elim (parse (if has_scheme raw then raw else codes "socks5://" ++ raw)) [
      | none ↦ none
      | some u ↦ elim (choose_credentials username password u.user) [
        | none ↦ none
        | some (auth, name, word) ↦
            if is_nil raw
              || not (equal u.scheme (codes "socks5") || equal u.scheme (codes "socks5h"))
              || is_nil u.hostname
            then none
            else if auth && (ltb 255 (length name) || ltb 255 (length word))
            then none
            else some (record {
              address = join u.hostname (if is_nil u.port then codes "1080" else u.port);
              username = name;
              password = word;
              auth = auth;
            })
      ]
    ]

-- `parseSOCKS5TargetAddress`; a negative number is 0.
unfoldable pub parse_target :
    (Text → Option (Text × Text)) → (Text → Option ℕ) → Text → Option Address
parse_target split atoi addr = elim (split addr) [
  | none ↦ none
  | some (host, raw) ↦ elim (atoi raw) [
    | none ↦ none
    | some port ↦
        if ltb port 1 || ltb 65535 port then none else some (record { host = host; port = port })
  ]
]

-- A connection: what the peer will send, what was written, and whether the next writes succeed.
pub record Conn : Type 0 where
  pub incoming : Bytes
  pub outgoing : Bytes
  pub writes : List Bool

abbrev pub Exec : Type 0 → Type 0
Exec A = Conn → Outcome A × Conn

infixl 5 ◌>>=◌ ◌>>◌
abbrev pub ◌>>=◌ : {A B : Type 0} → Exec A → (A → Exec B) → Exec B
◌>>=◌ m f c = let (r, c') = m c in elim r [ done a ↦ f a c' | err e ↦ (err e, c') ]

abbrev pub ◌>>◌ : {A B : Type 0} → Exec A → Exec B → Exec B
m >> k = m >>= (λ _. k)

abbrev pub return : {A : Type 0} → A → Exec A
return a c = (done a, c)

abbrev pub fail : {A : Type 0} → Failure → Exec A
fail e c = (err e, c)

-- A write that fails sends nothing that matters to the peer.
unfoldable pub write : Bytes → Exec Unit
write bs c = elim c.writes [
  | [] ↦ (err write_failed, c)
  | ok ∷ ws ↦
      if ok
      then (done tt, record c { outgoing = c.outgoing ++ bs; writes = ws })
      else (err write_failed, record c { writes = ws })
]

unfoldable pub reading : {A : Type 0} → (Bytes → Outcome (A × Bytes)) → Exec A
reading r c = elim (r c.incoming) [
  | done (a, left) ↦ (done a, record c { incoming = left })
  | err e ↦ (err e, c)
]

-- Two bytes.
unfoldable pub read_pair : Bytes → Outcome ((ℕ × ℕ) × Bytes)
read_pair [] = err read_failed
read_pair (_ ∷ []) = err read_failed
read_pair (a ∷ b ∷ r) = done ((a, b), r)

-- The greeting's and the user's bytes.
abbrev pub greeting : ProxyConfig → Bytes
greeting cfg = version ∷ (if cfg.auth then 2 ∷ no_auth ∷ user_pass_auth ∷ [] else 1 ∷ no_auth ∷ [])

abbrev pub user_pass_request : Text → Text → Bytes
user_pass_request username password =
    1 ∷ byte (length username) ∷ username ++ (byte (length password) ∷ password)

-- `socks5UserPass`
unfoldable pub user_pass : Text → Text → Exec Unit
unfolding write reading read_pair
user_pass username password = do
  write (user_pass_request username password)
  (v, status) ← reading read_pair
  if not (v == 1) || not (status == 0) then fail auth_failed else return tt

-- The method that the proxy has chosen.
unfoldable pub use_method : ProxyConfig → ℕ × ℕ → Exec Unit
unfolding user_pass
use_method cfg (v, method) =
    if not (v == version)
    then fail (bad_version v)
    else if method == no_auth
    then return tt
    else if method == user_pass_auth
    then (if cfg.auth then user_pass cfg.username cfg.password else fail no_credentials)
    else if method == no_acceptable
    then fail no_method
    else fail (bad_method method)

-- `socks5Negotiate`
unfoldable pub negotiate : ProxyConfig → Exec Unit
unfolding write reading read_pair use_method
negotiate cfg = do write (greeting cfg); reply ← reading read_pair; use_method cfg reply

module _ (n : Net) where
  -- `socks5BuildRequest`
  unfoldable pub build_request : ℕ → Address → Outcome Bytes
  unfolding encode_address
  build_request command target = elim (encode_address n target) [
    | err e ↦ err e
    | done addr ↦ done (version ∷ command ∷ 0 ∷ addr)
  ]

  -- `socks5ReadReply`: the status and the address.
  unfoldable pub read_reply : Bytes → Outcome ((ℕ × Address) × Bytes)
  unfolding read_address
  read_reply (v ∷ status ∷ res ∷ atyp ∷ r) =
      if not (v == version)
      then err (bad_version v)
      else if not (res == 0)
      then err (bad_reserved res)
      else elim (read_address n atyp r) [
        | err e ↦ err e
        | done (addr, left) ↦ done ((status, addr), left)
      ]
  read_reply _ = err read_failed

  abbrev pub check_status : ℕ × Address → Exec Address
  check_status (status, addr) =
      if status == success then return addr else fail (refused_with status)

  -- A request with its reply: the end of `socks5Handshake` and of the UDP association.
  unfoldable pub exchange : Bytes → Exec Address
  unfolding write reading read_reply
  exchange req = do write req; reply ← reading read_reply; check_status reply

  unfoldable pub send_built : Outcome Bytes → Exec Address
  unfolding exchange
  send_built (err e) = fail e
  send_built (done req) = exchange req

  unfoldable pub ask : ℕ → Address → Exec Address
  unfolding build_request send_built
  ask command target = send_built (build_request command target)

  -- `socks5Handshake`, with the address of the reply.
  unfoldable pub handshake : ProxyConfig → ℕ → Address → Exec Address
  unfolding negotiate ask
  handshake cfg command target = do negotiate cfg; ask command target

  -- `dialSOCKS5` on the connection to the proxy; `none` is an error without a handshake.
  unfoldable pub dial_socks5 :
      (Text → Option Url)
      → (Text → Text → Text)
      → (Text → Option (Text × Text))
      → (Text → Option ℕ)
      → Text
      → Option Text
      → Option Text
      → Text
      → Conn
      → Option (Outcome Address × Conn)
  unfolding config_from_raw parse_target handshake
  dial_socks5 parse join split atoi raw username password target c =
      elim (config_from_raw parse join raw username password) [
        | none ↦ none
        | some cfg ↦ elim (parse_target split atoi target) [
          | none ↦ none
          | some t ↦ some (handshake cfg cmd_connect t c)
        ]
      ]
