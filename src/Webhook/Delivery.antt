-- ===== src/Webhook/Delivery.antt =====
-- webhook.go: from the request for a delivery to its headers.
use rstream_go.Base.{
  ℕ, Bool, true, not, ◌&&◌, some, List, [], ◌∷◌, ◌++◌, ◌≡◌, refl, arith, is_nil, is_some, Text,
  codes, equal, trim_space, Dict, lookup, lookup-insert,
}
use rstream_go.Webhook.{
  Event, HeaderValues, HeaderOptions, build_values, sign_payload, apply_to, signature_key,
  event_id_key, time_of,
}

module _ (hmac : Text → Text → Text) (decimal : ℕ → Text) where
  -- The header of the signature, as its receiver recomputes it.
  abbrev pub expected_signature : Text → Text → ℕ → Text
  expected_signature body secret time =
      codes "t="
      ++ (decimal time
          ++ (codes ",v1=" ++ hmac (trim_space secret) (decimal time ++ (codes "." ++ body))))

  abbrev pub complete : Event → Text → HeaderOptions → Bool
  complete e secret opts =
      not (is_nil (trim_space e.id))
      && not (is_nil (trim_space e.event_type))
      && not (is_nil (trim_space opts.webhook_id))
      && not (is_nil (trim_space opts.delivery_id))
      && not (is_nil (trim_space secret))

  lookup-signature :
      (v : HeaderValues) (h : Dict (List Text))
      → lookup signature_key (apply_to v h) ≡ some (v.signature ∷ [])
  unfolding apply_to
  lookup-signature v h =
      rw
        (
          lookup-insert _ signature_key (v.delivery_id ∷ []) _,
          lookup-insert _ signature_key (v.webhook_id ∷ []) _,
          lookup-insert _ signature_key (v.event_type ∷ []) _,
          lookup-insert _ signature_key (v.event_id ∷ []) _,
          lookup-insert _ signature_key (v.signature ∷ []) _,
        )
        (unfold equal in refl)

  lookup-event_id :
      (v : HeaderValues) (h : Dict (List Text))
      → lookup event_id_key (apply_to v h) ≡ some (v.event_id ∷ [])
  unfolding apply_to
  lookup-event_id v h =
      rw
        (
          lookup-insert _ event_id_key (v.delivery_id ∷ []) _,
          lookup-insert _ event_id_key (v.webhook_id ∷ []) _,
          lookup-insert _ event_id_key (v.event_type ∷ []) _,
          lookup-insert _ event_id_key (v.event_id ∷ []) _,
        )
        (unfold equal in refl)

  -- Header values are built exactly for an event with an id and a type, a webhook's and a delivery's id, and a
  -- secret, none of them blank.
  pub build_values_complete :
      (now : ℕ) (body : Text) (e : Event) (secret : Text) (opts : HeaderOptions)
      → is_some (build_values hmac decimal now body e secret opts) ≡ complete e secret opts
  unfolding build_values sign_payload
  build_values_complete now body e secret opts = ground arith

  built :
      (now : ℕ) (body : Text) (e : Event) (secret : Text) (opts : HeaderOptions)
      → complete e secret opts ≡ true
      → build_values hmac decimal now body e secret opts
        ≡ some (record {
          signature = expected_signature body secret (time_of hmac decimal opts.timestamp now);
          event_id = trim_space e.id;
          event_type = trim_space e.event_type;
          webhook_id = trim_space opts.webhook_id;
          delivery_id = trim_space opts.delivery_id;
        })
  unfolding build_values sign_payload
  built now body e secret opts c = ground (arith, c)

  -- A complete event is delivered with the signature that its receiver recomputes from the body, the secret
  -- without its outer blanks and the time in the header, and with its own id, whatever headers the request
  -- had before.
  pub build_values-apply_to :
      (now : ℕ) (body : Text) (e : Event) (secret : Text) (opts : HeaderOptions)
      (h : Dict (List Text))
      → complete e secret opts ≡ true
      → (v : HeaderValues) × (build_values hmac decimal now body e secret opts ≡ some v)
        × (lookup signature_key (apply_to v h)
            ≡ some (expected_signature body secret (time_of hmac decimal opts.timestamp now) ∷ []))
        × (lookup event_id_key (apply_to v h) ≡ some (trim_space e.id ∷ []))
  build_values-apply_to now body e secret opts h c =
      (_, built now body e secret opts c, lookup-signature _ h, lookup-event_id _ h)
