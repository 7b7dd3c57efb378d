-- ===== src/Tunnel.antt =====
-- tunnel_properties.go: the properties of a tunnel, `normalizeCreateTunnelProperties` and the copies. A pointer
-- is an option; a nil map and a nil slice are the empty ones. The date of creation is opaque.
-- The types of tunnels, protocols, modes and versions are strings.
pub mod Tcp
pub mod Tests
use rstream_go.Base.{
  ℕ, Bool, true, false, not, ◌&&◌, ◌||◌, Option, none, some, List, [], ◌∷◌, ltb, if◌then◌else◌,
  ◌==◌, is_nil, is_some, Text, Dict, codes, equal,
}
use rstream_go.Cors.{Runes, CorsConfig, normalize}

abbrev pub TunnelType : Type 0
TunnelType = Text

abbrev pub bytestream : TunnelType
bytestream = codes "bytestream"

abbrev pub datagram : TunnelType
datagram = codes "datagram"

abbrev pub Protocol : Type 0
Protocol = Text

abbrev pub tcp : Protocol
tcp = codes "tcp"

abbrev pub http : Protocol
http = codes "http"

-- `TLSMode` and `HTTPVersion`, whose values are never compared here.
abbrev pub TlsMode : Type 0
TlsMode = Text

abbrev pub HttpVersion : Type 0
HttpVersion = Text

pub record TunnelProperties : Type 0 where
  pub id : Option Text
  pub creation_date : Option Text
  pub name : Option Text
  pub type_of : Option TunnelType
  pub publish : Option Bool
  pub protocol : Option Protocol
  pub labels : Dict Text
  pub geo_ip : List Text
  pub trusted_ips : List Text
  pub host : Option Text
  pub hostname : Option Text
  pub port : Option ℕ
  pub tls_mode : Option TlsMode
  pub tls_alpns : List Text
  pub tls_min_version : Option Text
  pub tls_ciphers : List Text
  pub mtls_auth : Option Bool
  pub http_version : Option HttpVersion
  pub http_cors : Option CorsConfig
  pub http_use_tls : Option Bool
  pub upstream_tls : Option Bool
  pub datagram_guaranteed_delivery : Option Bool
  pub allow_cross_region_routing : Option Bool
  pub token_auth : Option Bool
  pub rstream_auth : Option Bool
  pub challenge_mode : Option Bool

-- The errors of `normalizeCreateTunnelProperties`, in the order of its tests.
pub data Refusal : Type 0 where
  cors_unpublished cors_invalid port_without_tcp port_range not_bytestream unpublished
        other_options :
      Refusal

pub data Normal : Type 0 where
  accepted : TunnelProperties → Normal
  refused : Refusal → Normal

abbrev pub is_tcp : Option Protocol → Bool
is_tcp none = false
is_tcp (some x) = equal x tcp

-- `x != nil && *x != http`, and so for the type.
abbrev pub other_than_http : Option Protocol → Bool
other_than_http none = false
other_than_http (some x) = not (equal x http)

abbrev pub other_than_bytestream : Option TunnelType → Bool
other_than_bytestream none = false
other_than_bytestream (some t) = not (equal t bytestream)

abbrev pub is_unpublished : Option Bool → Bool
is_unpublished (some false) = true
is_unpublished _ = false

abbrev pub bad_port : Option ℕ → Bool
bad_port none = false
bad_port (some n) = n == 0 || ltb 65535 n

unfoldable pub has_other_options : TunnelProperties → Bool
has_other_options p =
    is_some p.hostname
    || is_some p.tls_mode
    || not (is_nil p.tls_alpns)
    || is_some p.tls_min_version
    || not (is_nil p.tls_ciphers)
    || is_some p.mtls_auth
    || is_some p.http_version
    || is_some p.http_use_tls
    || is_some p.upstream_tls
    || is_some p.datagram_guaranteed_delivery
    || is_some p.token_auth
    || is_some p.rstream_auth
    || is_some p.challenge_mode

-- The part behind the policy for cross-origin requests.
unfoldable pub normalize_tcp : TunnelProperties → Normal
normalize_tcp p =
    if is_some p.port && not (is_tcp p.protocol)
    then refused port_without_tcp
    else if not (is_tcp p.protocol)
    then accepted p
    else if bad_port p.port
    then refused port_range
    else if other_than_bytestream p.type_of
    then refused not_bytestream
    else if is_unpublished p.publish
    then refused unpublished
    else if has_other_options p
    then refused other_options
    else accepted (record p { type_of = some bytestream; publish = some true })

module _ (runes : Runes) where
  -- `normalizeCreateTunnelProperties`
  unfoldable pub normalize_create : TunnelProperties → Normal
  unfolding normalize normalize_tcp
  normalize_create p = elim p.http_cors [
    | none ↦ normalize_tcp p
    | some c ↦
        if is_unpublished p.publish || other_than_http p.protocol
        then refused cors_unpublished
        else elim (normalize runes (some c)) [
          | none ↦ refused cors_invalid
          | some c' ↦ normalize_tcp (record p { http_cors = c' })
        ]
  ]
