-- ===== src/Webhook/Tests.antt =====
-- The delivery of one event.
use rstream_go.Base.{
  ℕ, true, some, [], ◌∷◌, ◌++◌, ◌≡◌, refl, is_some, Text, codes, trim_space, trim_left, trim_right,
  is_space, lookup,
}
use rstream_go.Webhook.{
  Event, HeaderValues, HeaderOptions, build_values, apply_to, signature_key, event_id_key,
}
use rstream_go.Webhook.Delivery.{complete, build_values_complete, build_values-apply_to}

abbrev mac : Text → Text → Text
mac key payload = key ++ payload

abbrev print : ℕ → Text
print n = n ∷ []

abbrev created : Event
created = record {
  id = codes "evt_1";
  event_type = codes "tunnel.created";
  created_at = [];
  user_id = [];
  workspace_id = [];
  project_id = [];
  cluster_id = [];
  object = codes "{}";
}

abbrev options : HeaderOptions
options = record { webhook_id = codes "wh"; delivery_id = codes "del"; timestamp = some 48 }

created-complete : complete mac print created (codes "key ") options ≡ true
unfolding trim_space trim_left trim_right is_space
created-complete = refl

build_values_complete_example :
    is_some (build_values mac print 0 (codes "{}") created (codes "key ") options)
    ≡ complete mac print created (codes "key ") options
build_values_complete_example =
    build_values_complete mac print 0 (codes "{}") created (codes "key ") options

build_values-apply_to_example :
    (v : HeaderValues) × (build_values mac print 0 (codes "{}") created (codes "key ") options
      ≡ some v)
    × (lookup signature_key (apply_to v [])
        ≡ some (
            (codes "t="
              ++ (print 48
                  ++ (codes ",v1="
                      ++ mac (trim_space (codes "key ")) (print 48 ++ (codes "." ++ codes "{}")))))
            ∷ []))
    × (lookup event_id_key (apply_to v []) ≡ some (trim_space (codes "evt_1") ∷ []))
build_values-apply_to_example =
    build_values-apply_to mac print 0 (codes "{}") created (codes "key ") options []
      created-complete
