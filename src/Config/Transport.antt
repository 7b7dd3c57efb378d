-- ===== src/Config/Transport.antt =====
-- config/transport.go: the transport's configuration and `MergeTransport`. A pointer is an option, and the
-- header map is a function. (A copy that the source makes to keep the result apart from its arguments is
-- the value itself here; `len(override.Proxy.Headers) > 0` only avoids the making of an empty map.)
pub mod Merge
pub mod Selector
pub mod Tests
use rstream_go.Base.{
  ℕ, Bool, true, false, ◌&&◌, Option, none, some, [], map, if◌then◌else◌, is_nil, is_some, Text,
  codes, equal, trim_space,
}

pub record BindConfig : Type 0 where
  pub mode : Text
  pub interface : Text
  pub address : Text

pub record DnsConfig : Type 0 where
  pub override : Text
  pub tls : Option Bool
  pub server_name : Text
  pub dnssec : Option Bool

pub record TlsConfig : Type 0 where
  pub ca_file : Text
  pub server_name : Text
  pub insecure_skip_verify : Option Bool

pub record ProxyConfig : Type 0 where
  pub http : Text
  pub socks5 : Text
  pub username : Text
  pub password : Text
  pub headers : Text → Option Text
  pub from_environment : Option Bool
  pub tls : Option TlsConfig

pub record TransportConfig : Type 0 where
  pub bind : Option BindConfig
  pub ip_family : Text
  pub dns : Option DnsConfig
  pub mptcp : Option Bool
  pub tls : Option TlsConfig
  pub proxy : Option ProxyConfig
  pub mode : Text
  pub use_quic : Option Bool

-- `if override.X != "" { out.X = override.X }`, and the same of a pointer.
abbrev pub over_text : Text → Text → Text
over_text base override = if is_nil override then base else override

abbrev pub over_option : {A : Type 0} → Option A → Option A → Option A
over_option base none = base
over_option base (some a) = some a

-- A part that is a pointer to a record: what is missing in the base is the zero value.
abbrev pub over_part : {A : Type 0} → (A → A → A) → A → Option A → Option A → Option A
over_part merge zero_value base none = base
over_part merge zero_value none (some o) = some (merge zero_value o)
over_part merge zero_value (some b) (some o) = some (merge b o)

abbrev pub zero_bind : BindConfig
zero_bind = record { mode = []; interface = []; address = [] }

unfoldable pub merge_bind : BindConfig → BindConfig → BindConfig
merge_bind b o = record {
  mode = over_text b.mode o.mode;
  interface = over_text b.interface o.interface;
  address = over_text b.address o.address;
}

abbrev pub zero_dns : DnsConfig
zero_dns = record { override = []; tls = none; server_name = []; dnssec = none }

unfoldable pub merge_dns : DnsConfig → DnsConfig → DnsConfig
merge_dns b o = record {
  override = over_text b.override o.override;
  tls = over_option b.tls o.tls;
  server_name = over_text b.server_name o.server_name;
  dnssec = over_option b.dnssec o.dnssec;
}

abbrev pub zero_tls : TlsConfig
zero_tls = record { ca_file = []; server_name = []; insecure_skip_verify = none }

unfoldable pub merge_tls : TlsConfig → TlsConfig → TlsConfig
merge_tls b o = record {
  ca_file = over_text b.ca_file o.ca_file;
  server_name = over_text b.server_name o.server_name;
  insecure_skip_verify = over_option b.insecure_skip_verify o.insecure_skip_verify;
}

abbrev pub zero_proxy : ProxyConfig
zero_proxy = record {
  http = [];
  socks5 = [];
  username = [];
  password = [];
  headers = λ k. none;
  from_environment = none;
  tls = none;
}

unfoldable pub merge_proxy : ProxyConfig → ProxyConfig → ProxyConfig
unfolding merge_tls
merge_proxy b o = record {
  http = over_text b.http o.http;
  socks5 = over_text b.socks5 o.socks5;
  username = over_text b.username o.username;
  password = over_text b.password o.password;
  headers = λ k. over_option (b.headers k) (o.headers k);
  from_environment = over_option b.from_environment o.from_environment;
  tls = over_part merge_tls zero_tls b.tls o.tls;
}

-- The two selectors of the transport: `mode`, and the older `useQuic`.
unfoldable pub merge_mode : Text → Text → Option Bool → Text
merge_mode base override_mode override_quic =
    let mode = over_text base override_mode in
    if is_some override_quic && is_nil override_mode then [] else mode

unfoldable pub merge_use_quic : Option Bool → Text → Option Bool → Option Bool
merge_use_quic base override_mode override_quic =
    over_option (if is_nil override_mode then base else none) override_quic

unfoldable pub merge_config : TransportConfig → TransportConfig → TransportConfig
unfolding merge_bind merge_dns merge_tls merge_proxy merge_mode merge_use_quic
merge_config b o = record {
  bind = over_part merge_bind zero_bind b.bind o.bind;
  ip_family = over_text b.ip_family o.ip_family;
  dns = over_part merge_dns zero_dns b.dns o.dns;
  mptcp = over_option b.mptcp o.mptcp;
  tls = over_part merge_tls zero_tls b.tls o.tls;
  proxy = over_part merge_proxy zero_proxy b.proxy o.proxy;
  mode = merge_mode b.mode o.mode o.use_quic;
  use_quic = merge_use_quic b.use_quic o.mode o.use_quic;
}

abbrev pub zero_config : TransportConfig
zero_config = record {
  bind = none;
  ip_family = [];
  dns = none;
  mptcp = none;
  tls = none;
  proxy = none;
  mode = [];
  use_quic = none;
}

-- `MergeTransport`
unfoldable pub merge_transport :
    Option TransportConfig → Option TransportConfig → Option TransportConfig
unfolding merge_config
merge_transport base override = over_part merge_config zero_config base override

-- `TunnelTransportMode`, and `ParseTunnelTransportMode` over the map of `unicode.ToLower`.
pub data TransportMode : Type 0 where
  auto tls_mode quic_mode : TransportMode

unfoldable pub parse_mode : (ℕ → ℕ) → Text → Option TransportMode
parse_mode to_lower value =
    let mode = map to_lower (trim_space value) in
    if equal mode (codes "auto")
    then some auto
    else if equal mode (codes "tls")
    then some tls_mode
    else if equal mode (codes "quic")
    then some quic_mode
    else none

-- `transportMode`; `none` is the error of the parser.
unfoldable pub transport_mode : (ℕ → ℕ) → Option TransportConfig → Option TransportMode
transport_mode to_lower none = some auto
transport_mode to_lower (some cfg) =
    if is_nil cfg.mode
    then elim cfg.use_quic [
      | none ↦ some auto
      | some b ↦ if b then some quic_mode else some tls_mode
    ]
    else parse_mode to_lower cfg.mode
