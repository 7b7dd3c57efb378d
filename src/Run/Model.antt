-- ===== src/Run/Model.antt =====
-- cmd/rstream/internal/runmodel/types.go: desired tunnels, and when two of them are equal. The dialer,
-- its configuration, the TLS configuration and the tunnel's properties are opaque types here, and
-- `reflect.DeepEqual` is a parameter.
use rstream_go.Base.{Bool, true, Option, none, ◌≡◌, Text, trim_space, is_nil, if◌then◌else◌}
use rstream_go.Run.Reconciler.{DesiredOps}

pub record ForwardTarget : Type 0 where
  pub host : Text
  pub port : Text

pub record ResolvedContext (Dialer Config Tls : Type 0) : Type 0 where
  pub name : Text
  pub engine : Text
  pub stable_domain_engine : Text
  pub token : Text
  pub transport : Option Dialer
  pub transport_config : Option Config
  pub tls_client_config : Option Tls
  pub credential_id : Text

pub record DesiredTunnel (Dialer Config Tls Props : Type 0) : Type 0 where
  pub name : Text
  pub forward : ForwardTarget
  pub context : ResolvedContext Dialer Config Tls
  pub props : Props
  pub source : Text

module _ {Dialer Config Tls : Type 0} where
  unfoldable pub stable_domain_endpoint : ResolvedContext Dialer Config Tls → Text
  stable_domain_endpoint r =
      let value = trim_space r.stable_domain_engine in if is_nil value then r.engine else value

module _ {Dialer Config Tls Props : Type 0} where
  -- The copy that `EqualDesired` compares.
  unfoldable pub comparable :
      DesiredTunnel Dialer Config Tls Props → DesiredTunnel Dialer Config Tls Props
  comparable d = record d {
    context = record d.context { transport = none; tls_client_config = none };
  }

  module _
      (deep_equal : DesiredTunnel Dialer Config Tls Props
        → DesiredTunnel Dialer Config Tls Props
        → Bool) where
    unfoldable pub equal_desired :
        DesiredTunnel Dialer Config Tls Props → DesiredTunnel Dialer Config Tls Props → Bool
    equal_desired a b = deep_equal (comparable a) (comparable b)

    -- The operations that the reconciler takes, from a reflexive `reflect.DeepEqual`.
    pub tunnel_ops :
        ((d : DesiredTunnel Dialer Config Tls Props) → deep_equal d d ≡ true)
        → DesiredOps (DesiredTunnel Dialer Config Tls Props)
    unfolding equal_desired
    tunnel_ops deep_equal_refl = record {
      name = λ d. d.name;
      equal_desired = equal_desired;
      equal_desired_refl = λ d. deep_equal_refl (comparable d);
    }
