-- ===== src/Webhook.antt =====
-- webhook.go: events for webhooks, their signature and headers. `hmac` is the hexadecimal HMAC-SHA256 of a key
-- and a payload, times are their numbers of seconds printed by `decimal`, `stamp` prints a time in RFC 3339,
-- and `now` is the time of the call. The names of headers stand as `Header.Set` spells them.
pub mod Delivery
pub mod Tests
use rstream_go.Base.{
  ℕ, Bool, true, false, ◌||◌, Option, none, some, List, [], ◌∷◌, ◌++◌, if◌then◌else◌, is_nil, Text,
  codes, equal, trim_space, Dict, insert,
}

-- `Event` and `WebhookEvent` have the same fields; the object is the text of its JSON.
pub record Event : Type 0 where
  pub id : Text
  pub event_type : Text
  pub created_at : Text
  pub user_id : Text
  pub workspace_id : Text
  pub project_id : Text
  pub cluster_id : Text
  pub object : Text

pub record HeaderValues : Type 0 where
  pub signature : Text
  pub event_id : Text
  pub event_type : Text
  pub webhook_id : Text
  pub delivery_id : Text

-- `timestamp` is `none` for the zero time.
pub record HeaderOptions : Type 0 where
  pub webhook_id : Text
  pub delivery_id : Text
  pub timestamp : Option ℕ

-- `IsWebhookDeliverableEventType`
unfoldable pub is_deliverable : Text → Bool
is_deliverable event_type =
    let t = trim_space event_type in
    equal t (codes "client.created")
    || equal t (codes "client.deleted")
    || equal t (codes "tunnel.created")
    || equal t (codes "tunnel.deleted")

abbrev pub or_else : Text → Text → Text
or_else a b = if is_nil a then b else a

-- `EventToWebhookEvent`
unfoldable pub event_to_webhook : (ℕ → Text) → Event → Text → ℕ → Option Event
unfolding is_deliverable
event_to_webhook stamp e fallback created =
    let id = or_else (trim_space e.id) (trim_space fallback) in
    if is_deliverable (trim_space e.event_type)
    then (if is_nil id
        then none
        else some (record e {
          id = id;
          event_type = trim_space e.event_type;
          created_at = or_else (trim_space e.created_at) (stamp created);
        }))
    else none

module _ (hmac : Text → Text → Text) (decimal : ℕ → Text) where
  -- `SignWebhookPayload`
  unfoldable pub sign_payload : Text → Text → ℕ → Option Text
  sign_payload body secret time =
      let key = trim_space secret in
      if is_nil key
      then none
      else some (
          codes "t="
          ++ (decimal time ++ (codes ",v1=" ++ hmac key (decimal time ++ (codes "." ++ body)))))

  abbrev pub time_of : Option ℕ → ℕ → ℕ
  time_of none now = now
  time_of (some t) now = t

  -- `BuildWebhookHeaderValues`
  unfoldable pub build_values : ℕ → Text → Event → Text → HeaderOptions → Option HeaderValues
  unfolding sign_payload
  build_values now body e secret opts =
      if is_nil (trim_space e.id)
      then none
      else if is_nil (trim_space e.event_type)
      then none
      else if is_nil (trim_space opts.webhook_id)
      then none
      else if is_nil (trim_space opts.delivery_id)
      then none
      else elim (sign_payload body secret (time_of opts.timestamp now)) [
        | none ↦ none
        | some signature ↦ some (record {
          signature = signature;
          event_id = trim_space e.id;
          event_type = trim_space e.event_type;
          webhook_id = trim_space opts.webhook_id;
          delivery_id = trim_space opts.delivery_id;
        })
      ]

abbrev pub signature_key : Text
signature_key = codes "Rstream-Signature"

abbrev pub event_id_key : Text
event_id_key = codes "Rstream-Event-Id"

abbrev pub event_type_key : Text
event_type_key = codes "Rstream-Event-Type"

abbrev pub webhook_id_key : Text
webhook_id_key = codes "Rstream-Webhook-Id"

abbrev pub delivery_id_key : Text
delivery_id_key = codes "Rstream-Delivery-Id"

-- `ApplyTo`
unfoldable pub apply_to : HeaderValues → Dict (List Text) → Dict (List Text)
apply_to v h0 =
    let h1 = insert (codes "Content-Type") (codes "application/json" ∷ []) h0 in
    let h2 = insert signature_key (v.signature ∷ []) h1 in
    let h3 = insert event_id_key (v.event_id ∷ []) h2 in
    let h4 = insert event_type_key (v.event_type ∷ []) h3 in
    let h5 = insert webhook_id_key (v.webhook_id ∷ []) h4 in
    insert delivery_id_key (v.delivery_id ∷ []) h5
