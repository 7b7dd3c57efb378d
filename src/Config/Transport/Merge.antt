-- ===== src/Config/Transport/Merge.antt =====
-- `MergeTransport` layers configurations: the order of the layers counts, their grouping does not.

use rstream_go.Base.{Bool, Option, none, some, [], ◌∷◌, ◌≡◌, refl, arith, Text}
use rstream_go.Config.Transport.{
  TransportConfig, over_text, over_option, over_part, zero_bind, merge_bind, zero_dns, merge_dns,
  zero_tls, merge_tls, zero_proxy, merge_proxy, merge_mode, merge_use_quic, zero_config,
  merge_config, merge_transport,
}

over_text_assoc : (a b c : Text) → over_text (over_text a b) c ≡ over_text a (over_text b c)
over_text_assoc a b [] = refl
over_text_assoc a b (x ∷ c) = refl

over_option_assoc :
    {A : Type 0} (a b c : Option A)
    → over_option (over_option a b) c ≡ over_option a (over_option b c)
over_option_assoc a b none = refl
over_option_assoc a b (some x) = refl

-- A merge that is associative, and to which the zero value is neutral on the left.
record IsLayering {A : Type 0} (merge : A → A → A) (zero_value : A) : Type 0 where
  assoc : (a b c : A) → merge (merge a b) c ≡ merge a (merge b c)
  zero_left : (a : A) → merge zero_value a ≡ a

over_part_assoc :
    {A : Type 0} {merge : A → A → A} {zero_value : A} (l : IsLayering merge zero_value)
    (a b c : Option A)
    → over_part merge zero_value (over_part merge zero_value a b) c
      ≡ over_part merge zero_value a (over_part merge zero_value b c)
over_part_assoc l a b none = refl
over_part_assoc l (some a) none (some c) = rw (l.zero_left c)
over_part_assoc {merge = m} {zero_value = z} l none none (some c) = rw (l.zero_left (m z c))
over_part_assoc {zero_value = z} l none (some b) (some c) = rw (l.assoc z b c)
over_part_assoc l (some a) (some b) (some c) = rw (l.assoc a b c)

over_part_zero :
    {A : Type 0} {merge : A → A → A} {zero_value : A} (l : IsLayering merge zero_value)
    (a : Option A)
    → over_part merge zero_value none a ≡ a
over_part_zero l none = refl
over_part_zero l (some a) = rw (l.zero_left a)

over_text_zero : (a : Text) → over_text [] a ≡ a
over_text_zero [] = refl
over_text_zero (x ∷ a) = refl

over_option_zero : {A : Type 0} (a : Option A) → over_option none a ≡ a
over_option_zero none = refl
over_option_zero (some a) = refl

bind-IsLayering : IsLayering merge_bind zero_bind
unfolding merge_bind
bind-IsLayering = record {
  assoc = λ a b c i. record {
    mode = over_text_assoc a.mode b.mode c.mode i;
    interface = over_text_assoc a.interface b.interface c.interface i;
    address = over_text_assoc a.address b.address c.address i;
  };
  zero_left = λ a i. record {
    mode = over_text_zero a.mode i;
    interface = over_text_zero a.interface i;
    address = over_text_zero a.address i;
  };
}

dns-IsLayering : IsLayering merge_dns zero_dns
unfolding merge_dns
dns-IsLayering = record {
  assoc = λ a b c i. record {
    override = over_text_assoc a.override b.override c.override i;
    tls = over_option_assoc a.tls b.tls c.tls i;
    server_name = over_text_assoc a.server_name b.server_name c.server_name i;
    dnssec = over_option_assoc a.dnssec b.dnssec c.dnssec i;
  };
  zero_left = λ a i. record {
    override = over_text_zero a.override i;
    tls = over_option_zero a.tls i;
    server_name = over_text_zero a.server_name i;
    dnssec = over_option_zero a.dnssec i;
  };
}

tls-IsLayering : IsLayering merge_tls zero_tls
unfolding merge_tls
tls-IsLayering = record {
  assoc = λ a b c i. record {
    ca_file = over_text_assoc a.ca_file b.ca_file c.ca_file i;
    server_name = over_text_assoc a.server_name b.server_name c.server_name i;
    insecure_skip_verify =
        over_option_assoc a.insecure_skip_verify b.insecure_skip_verify c.insecure_skip_verify i;
  };
  zero_left = λ a i. record {
    ca_file = over_text_zero a.ca_file i;
    server_name = over_text_zero a.server_name i;
    insecure_skip_verify = over_option_zero a.insecure_skip_verify i;
  };
}

proxy-IsLayering : IsLayering merge_proxy zero_proxy
unfolding merge_proxy
proxy-IsLayering = record {
  assoc = λ a b c i. record {
    http = over_text_assoc a.http b.http c.http i;
    socks5 = over_text_assoc a.socks5 b.socks5 c.socks5 i;
    username = over_text_assoc a.username b.username c.username i;
    password = over_text_assoc a.password b.password c.password i;
    headers = λ k. over_option_assoc (a.headers k) (b.headers k) (c.headers k) i;
    from_environment = over_option_assoc a.from_environment b.from_environment c.from_environment i;
    tls = over_part_assoc tls-IsLayering a.tls b.tls c.tls i;
  };
  zero_left = λ a i. record {
    http = over_text_zero a.http i;
    socks5 = over_text_zero a.socks5 i;
    username = over_text_zero a.username i;
    password = over_text_zero a.password i;
    headers = λ k. over_option_zero (a.headers k) i;
    from_environment = over_option_zero a.from_environment i;
    tls = over_part_zero tls-IsLayering a.tls i;
  };
}

merge_mode_assoc :
    (m n : Text) (p : Text) (q r : Option Bool)
    → merge_mode (merge_mode m n q) p r ≡ merge_mode m (merge_mode n p r) (merge_use_quic q p r)
unfolding merge_mode merge_use_quic
merge_mode_assoc m n p q r = ground arith

merge_use_quic_assoc :
    (n p : Text) (o q r : Option Bool)
    → merge_use_quic (merge_use_quic o n q) p r
      ≡ merge_use_quic o (merge_mode n p r) (merge_use_quic q p r)
unfolding merge_mode merge_use_quic
merge_use_quic_assoc n p o q r = ground arith

merge_mode_zero : (m : Text) (q : Option Bool) → merge_mode [] m q ≡ m
unfolding merge_mode
merge_mode_zero m q = ground arith

merge_use_quic_zero : (m : Text) (q : Option Bool) → merge_use_quic none m q ≡ q
unfolding merge_use_quic
merge_use_quic_zero m q = ground arith

config-IsLayering : IsLayering merge_config zero_config
unfolding merge_config
config-IsLayering = record {
  assoc = λ a b c i. record {
    bind = over_part_assoc bind-IsLayering a.bind b.bind c.bind i;
    ip_family = over_text_assoc a.ip_family b.ip_family c.ip_family i;
    dns = over_part_assoc dns-IsLayering a.dns b.dns c.dns i;
    mptcp = over_option_assoc a.mptcp b.mptcp c.mptcp i;
    tls = over_part_assoc tls-IsLayering a.tls b.tls c.tls i;
    proxy = over_part_assoc proxy-IsLayering a.proxy b.proxy c.proxy i;
    mode = merge_mode_assoc a.mode b.mode c.mode b.use_quic c.use_quic i;
    use_quic = merge_use_quic_assoc b.mode c.mode a.use_quic b.use_quic c.use_quic i;
  };
  zero_left = λ a i. record {
    bind = over_part_zero bind-IsLayering a.bind i;
    ip_family = over_text_zero a.ip_family i;
    dns = over_part_zero dns-IsLayering a.dns i;
    mptcp = over_option_zero a.mptcp i;
    tls = over_part_zero tls-IsLayering a.tls i;
    proxy = over_part_zero proxy-IsLayering a.proxy i;
    mode = merge_mode_zero a.mode a.use_quic i;
    use_quic = merge_use_quic_zero a.mode a.use_quic i;
  };
}

-- Layers of configuration may be merged in any grouping: every setting, the two selectors of the
-- transport and each header of the proxy included, comes out the same.
pub merge_transport_assoc :
    (a b c : Option TransportConfig)
    → merge_transport (merge_transport a b) c ≡ merge_transport a (merge_transport b c)
unfolding merge_transport
merge_transport_assoc a b c = over_part_assoc config-IsLayering a b c
