-- ===== src/Config/Transport/Selector.antt =====
-- The transport that a layered configuration selects.
use rstream_go.Base.{
  ℕ, Bool, true, false, ◌||◌, Option, none, some, ◌∙◌, sym, refl, ◌≡◌, arith, if◌then◌else◌, is_nil,
  is_some, not,
}
use rstream_go.Config.Transport.{
  TransportConfig, zero_config, merge_config, merge_transport, transport_mode,
}
use rstream_go.Config.Transport.Merge.{merge_transport_assoc}

-- The configuration says which transport to use, by either selector.
abbrev pub selects : TransportConfig → Bool
selects cfg = not (is_nil cfg.mode) || is_some cfg.use_quic

selected_mode :
    (to_lower : ℕ → ℕ) (b o : TransportConfig)
    → transport_mode to_lower (some (merge_config b o))
      ≡ transport_mode to_lower (some (if selects o then o else b))
unfolding transport_mode merge_config
selected_mode to_lower b o = ground arith

-- The layer of `o` if it has a selector, and otherwise `t`.
abbrev pub selecting : Option TransportConfig → TransportConfig → TransportConfig
selecting none t = t
selecting (some c) t = if selects c then c else t

mode_if :
    (to_lower : ℕ → ℕ) (s : Bool) (x y t : TransportConfig)
    → transport_mode to_lower (some y) ≡ transport_mode to_lower (some t)
    → transport_mode to_lower (some (if s then x else y))
      ≡ transport_mode to_lower (some (if s then x else t))
mode_if to_lower true x y t h = refl
mode_if to_lower false x y t h = h

mode-selecting :
    (to_lower : ℕ → ℕ) (a : Option TransportConfig)
    → transport_mode to_lower a ≡ transport_mode to_lower (some (selecting a zero_config))
unfolding transport_mode
mode-selecting to_lower none = refl
mode-selecting to_lower (some c) = ground arith

merge_transport-selecting :
    (to_lower : ℕ → ℕ) (b o : Option TransportConfig) (t : TransportConfig)
    → transport_mode to_lower b ≡ transport_mode to_lower (some t)
    → transport_mode to_lower (merge_transport b o) ≡ transport_mode to_lower (some (selecting o t))
unfolding merge_transport
merge_transport-selecting to_lower b none t h = h
merge_transport-selecting to_lower none (some c) t h =
    selected_mode to_lower zero_config c
    ∙ mode_if to_lower (selects c) c zero_config t (sym (mode-selecting to_lower none) ∙ h)
merge_transport-selecting to_lower (some b) (some c) t h =
    selected_mode to_lower b c ∙ mode_if to_lower (selects c) c b t h

-- Three layers of configuration, each of which may be missing, may be merged in either grouping, and every
-- setting comes out the same. The merge selects the transport of the last layer that has a selector, by
-- `mode` or by the older `useQuic`, and that of the zero configuration if none has.
pub merge_transport_layers :
    (to_lower : ℕ → ℕ) (a b c : Option TransportConfig)
    → (merge_transport (merge_transport a b) c ≡ merge_transport a (merge_transport b c))
      × (transport_mode to_lower (merge_transport (merge_transport a b) c)
          ≡ transport_mode to_lower (some (selecting c (selecting b (selecting a zero_config)))))
merge_transport_layers to_lower a b c = (
  merge_transport_assoc a b c,
  merge_transport-selecting to_lower (merge_transport a b) c (selecting b (selecting a zero_config))
      (merge_transport-selecting to_lower a b (selecting a zero_config)
        (mode-selecting to_lower a)),
)
