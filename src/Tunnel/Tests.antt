-- ===== src/Tunnel/Tests.antt =====
-- A published TCP tunnel on port 8022.
use rstream_go.Base.{true, false, none, some, [], ◌≡◌, ◌↔◌, refl, equal}
use rstream_go.Cors.{Runes}
use rstream_go.Tunnel.{
  TunnelProperties, tcp, accepted, refused, has_other_options, port_range, normalize_tcp,
  normalize_create,
}
use rstream_go.Tunnel.Tcp.{IsPublishable, as_tcp, normalize_create_iff}

abbrev pub plain : Runes
plain = record {
  parse_url = λ _. none;
  to_lower = λ c. c;
  to_upper = λ c. c;
  equal_fold = λ _ _. false;
  atoi = λ _. none;
  canonical_key = λ v. v;
  valid_field_name = λ _. true;
}

abbrev pub ssh : TunnelProperties
ssh = record {
  id = none;
  creation_date = none;
  name = none;
  type_of = none;
  publish = none;
  protocol = some tcp;
  labels = [];
  geo_ip = [];
  trusted_ips = [];
  host = none;
  hostname = none;
  port = some 8022;
  tls_mode = none;
  tls_alpns = [];
  tls_min_version = none;
  tls_ciphers = [];
  mtls_auth = none;
  http_version = none;
  http_cors = none;
  http_use_tls = none;
  upstream_tls = none;
  datagram_guaranteed_delivery = none;
  allow_cross_region_routing = none;
  token_auth = none;
  rstream_auth = none;
  challenge_mode = none;
}

ssh-normal : normalize_create plain ssh ≡ accepted (as_tcp ssh)
unfolding normalize_create normalize_tcp has_other_options equal
ssh-normal = refl

far_port-refused : normalize_create plain (record ssh { port = some 65536 }) ≡ refused port_range
unfolding normalize_create normalize_tcp has_other_options equal
far_port-refused = refl

normalize_create_iff_example :
    (normalize_create plain ssh ≡ accepted (as_tcp ssh)) ↔ IsPublishable ssh
unfolding equal
normalize_create_iff_example = normalize_create_iff plain ssh refl
