-- ===== src/Socks.antt =====
-- socks5_proxy.go: the addresses of SOCKS5 and their bytes. A string is the list of its bytes here. Go's `net` package
-- is a parameter: what it makes of the text of an IP address, and of the bytes of one.
pub mod Wire
pub mod Client
pub mod Transcript
pub mod Secrecy
pub mod Relay
pub mod Credentials
pub mod Tests
use rstream_go.Base.{
  ℕ, zero, suc, ◌+◌, ◌*◌, ◌/◌, ◌%◌, ◌^◌, ◌≡◌, Bool, true, false, not, ◌&&◌, ◌||◌, Option, none,
  some, List, [], ◌∷◌, ◌++◌, if◌then◌else◌, ◌==◌, length, ltb, Text,
}

abbrev pub Bytes : Type 0
Bytes = List ℕ

-- `socks5Address`
pub record Address : Type 0 where
  pub host : Text
  pub port : ℕ

-- `net.ParseIP`, and `To4`, `To16` and `String` of `net.IP`.
pub record Net : Type 0 where
  pub parse_ip : Text → Option Bytes
  pub to4 : Bytes → Option Bytes
  pub to16 : Bytes → Option Bytes
  pub ip_text : Bytes → Text

-- What these functions are documented to return: 4 and 16 bytes.
pub record IsNet (n : Net) : Type 0 where
  pub to4_length : (ip v : Bytes) → n.to4 ip ≡ some v → length v ≡ 4
  pub to16_length : (ip v : Bytes) → n.to16 ip ≡ some v → length v ≡ 16

-- The errors.
pub data Failure : Type 0 where
  write_failed read_failed no_credentials no_method auth_failed invalid_ip bad_length short reserved
        fragmented :
      Failure
  bad_version bad_method bad_reserved bad_type refused_with : ℕ → Failure

pub data Outcome {ℓ} (A : Type ℓ) : Type ℓ where
  done : A → Outcome A
  err : Failure → Outcome A

abbrev pub version : ℕ
version = 5

abbrev pub no_auth : ℕ
no_auth = 0

abbrev pub user_pass_auth : ℕ
user_pass_auth = 2

abbrev pub no_acceptable : ℕ
no_acceptable = 255

abbrev pub cmd_connect : ℕ
cmd_connect = 1

abbrev pub cmd_udp : ℕ
cmd_udp = 3

abbrev pub addr_ipv4 : ℕ
addr_ipv4 = 1

abbrev pub addr_domain : ℕ
addr_domain = 3

abbrev pub addr_ipv6 : ℕ
addr_ipv6 = 4

abbrev pub success : ℕ
success = 0

-- The conversion to `byte`.
abbrev pub byte : ℕ → ℕ
byte n = n % 2 ^ 8

-- `binary.BigEndian.PutUint16` of a `uint16`, and `Uint16`.
abbrev pub put_uint16 : ℕ → Bytes
put_uint16 p = byte (p % 2 ^ 16 / 2 ^ 8) ∷ byte (p % 2 ^ 16) ∷ []

abbrev pub uint16 : ℕ → ℕ → ℕ
uint16 hi lo = hi * 2 ^ 8 + lo

infixl 5 ◌>>=◌
abbrev pub ◌>>=◌ {ℓ κ} : {A : Type ℓ} {B : Type κ} → Outcome A → (A → Outcome B) → Outcome B
done a >>= f = f a
err e >>= f = err e

-- `io.ReadFull` into `n` bytes: these, and what is left.
unfoldable pub read_full : ℕ → Bytes → Outcome (Bytes × Bytes)
read_full zero r = done ([], r)
read_full (suc n) [] = err read_failed
read_full (suc n) (b ∷ r) = do (bs, left) ← read_full n r; done (b ∷ bs, left)

module _ (n : Net) where
  -- `socks5EncodeAddress`
  unfoldable pub encode_address : Address → Outcome Bytes
  encode_address t = elim (n.parse_ip t.host) [
    | some ip ↦ elim (n.to4 ip) [
      | some v4 ↦ done (addr_ipv4 ∷ v4 ++ put_uint16 t.port)
      | none ↦ elim (n.to16 ip) [
        | some v6 ↦ done (addr_ipv6 ∷ v6 ++ put_uint16 t.port)
        | none ↦ err invalid_ip
      ]
    ]
    | none ↦
        if length t.host == 0 || ltb 255 (length t.host)
        then err bad_length
        else done (addr_domain ∷ byte (length t.host) ∷ t.host ++ put_uint16 t.port)
  ]

  -- The host of `socks5ReadAddress`, by the type of the address.
  unfoldable pub read_host : ℕ → Bytes → Outcome (Text × Bytes)
  unfolding read_full
  read_host atyp r =
      if atyp == addr_ipv4
      then (do (raw, left) ← read_full 4 r; done (n.ip_text raw, left))
      else if atyp == addr_ipv6
      then (do (raw, left) ← read_full 16 r; done (n.ip_text raw, left))
      else if atyp == addr_domain
      then elim r [ [] ↦ err read_failed | size ∷ left ↦ read_full size left ]
      else err (bad_type atyp)

  -- `socks5ReadAddress`
  unfoldable pub read_address : ℕ → Bytes → Outcome (Address × Bytes)
  unfolding read_host
  read_address atyp r = do
    (host, left) ← read_host atyp r
    elim left [
      | [] ↦ err read_failed
      | hi ∷ rest ↦ elim rest [
        | [] ↦ err read_failed
        | lo ∷ rest' ↦ done (record { host = host; port = uint16 hi lo }, rest')
      ]
    ]
