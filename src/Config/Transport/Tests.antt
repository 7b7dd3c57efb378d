-- ===== src/Config/Transport/Tests.antt =====
-- Layers of configuration.
use rstream_go.Base.{ℕ, true, none, some, ◌≡◌, refl, codes}
use rstream_go.Config.Transport.{
  TransportConfig, zero_config, merge_transport, quic_mode, transport_mode, parse_mode,
}
use rstream_go.Config.Transport.Selector.{selecting, merge_transport_layers}

abbrev file_layer : TransportConfig
file_layer = record zero_config { mode = codes "tls"; mptcp = some true }

abbrev context_layer : TransportConfig
context_layer = record zero_config { use_quic = some true; ip_family = codes "ipv6" }

abbrev lower_ascii : ℕ → ℕ
lower_ascii c = c

legacy_wins :
    transport_mode lower_ascii (merge_transport (some file_layer) (some context_layer))
    ≡ some quic_mode
unfolding transport_mode merge_transport parse_mode
legacy_wins = refl

merge_transport_layers_example :
    (merge_transport (merge_transport (some file_layer) none) (some context_layer)
      ≡ merge_transport (some file_layer) (merge_transport none (some context_layer)))
    × (transport_mode lower_ascii
          (merge_transport (merge_transport (some file_layer) none) (some context_layer))
        ≡ transport_mode lower_ascii (
            some (
              selecting
                (some context_layer)
                (selecting none (selecting (some file_layer) zero_config)))))
merge_transport_layers_example =
    merge_transport_layers lower_ascii (some file_layer) none (some context_layer)
