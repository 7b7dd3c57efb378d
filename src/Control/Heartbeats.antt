-- ===== src/Control/Heartbeats.antt =====
-- client.go: `resolveControlChannelConfig`, `validateNegotiatedControlLiveness`, and the heartbeats of a control
-- channel. Durations are nanoseconds; one that is not positive is 0.
use rstream_go.Base.{
  ℕ, suc, ◌+◌, ◌*◌, ◌/◌, ◌%◌, ◌^◌, ◌≤◌, ◌<◌, Bool, true, not, ◌&&◌, ◌||◌, Option, none, some, List,
  [], ◌∷◌, ◌≡◌, arith, inl, inr, sym, if◌then◌else◌, ◌==◌, ltb, leb, Option-cases,
}

abbrev pub millisecond : ℕ
millisecond = 1000000

abbrev pub second : ℕ
second = 1000000000

abbrev pub max_timeout : ℕ
max_timeout = 900000000000

-- What `resolveControlChannelConfig` reads and returns.
pub record Config : Type 0 where
  pub enable_heartbeat : Option Bool
  pub heartbeat_interval : Option ℕ
  pub close_timeout : Option ℕ

pub record Settings : Type 0 where
  pub enabled : Bool
  pub interval : ℕ
  pub close_timeout : ℕ

abbrev or_value {ℓ} : {A : Type ℓ} → Option A → A → A
or_value none d = d
or_value (some v) d = v

unfoldable pub resolve_config : Option Config → Option Settings
resolve_config cfg =
    let enabled : Bool = elim cfg [ none ↦ true | some c ↦ or_value c.enable_heartbeat true ] in
    let interval : ℕ = elim cfg [
      | none ↦ 5 * second
      | some c ↦ or_value c.heartbeat_interval (5 * second)
    ] in
    let given : ℕ = elim cfg [ none ↦ 0 | some c ↦ or_value c.close_timeout 0 ] in
    if enabled
      && ltb 0 interval
      && (ltb interval second || ltb (300 * second) interval || not (interval % millisecond == 0))
    then none
    else some (record {
      enabled = enabled;
      interval = interval;
      close_timeout = if ltb 0 given then given else 5 * second;
    })

-- `pb.ControlChannelLiveness`, in milliseconds.
pub record Negotiated : Type 0 where
  pub interval_ms : ℕ
  pub timeout_ms : ℕ

-- `validateNegotiatedControlLiveness`
unfoldable pub validate_liveness : Bool → ℕ → Option Negotiated → Option ℕ
validate_liveness enabled interval negotiated = elim negotiated [
  | none ↦ some 0
  | some n ↦
      let timeout = n.timeout_ms * millisecond in
      if not enabled || interval == 0
      then none
      else if not (n.interval_ms == interval / millisecond % 2 ^ 32)
      then none
      else if ltb timeout interval || ltb max_timeout timeout
      then none
      else some timeout
]

pub record Liveness : Type 0 where
  pub timeout : ℕ
  pub sequence : ℕ
  pub acknowledgement : ℕ

-- The critical section of `sendHeartbeat`: the `uint64` counter skips 0.
unfoldable pub send_heartbeat : Liveness → Liveness
send_heartbeat l =
    let next = (l.sequence + 1) % 2 ^ 64 in
    if l.timeout == 0 then l else record l { sequence = if next == 0 then 1 else next }

-- `pb.Heartbeat`
pub record Heartbeat : Type 0 where
  pub sequence : ℕ
  pub acknowledgement : ℕ

-- `handleHeartbeat`; `none` is its error.
unfoldable pub handle_heartbeat : Option Heartbeat → Liveness → Option Liveness
handle_heartbeat none l = none
handle_heartbeat (some h) l =
    if l.timeout == 0
      || not (h.sequence == 0)
      || h.acknowledgement == 0
      || leb h.acknowledgement l.acknowledgement
      || ltb l.sequence h.acknowledgement
    then none
    else some (record l { acknowledgement = h.acknowledgement })

-- What the two sides of a channel do about its liveness.
pub data Beat : Type 0 where
  sent : Beat
  received : Heartbeat → Beat

-- One after the other, up to the first error.
unfoldable pub beats : List Beat → Liveness → Option Liveness
unfolding send_heartbeat handle_heartbeat
beats [] l = some l
beats (sent ∷ es) l = beats es (send_heartbeat l)
beats (received h ∷ es) l = elim (handle_heartbeat (some h) l) [
  | none ↦ none
  | some l' ↦ beats es l'
]

abbrev pub sends : List Beat → ℕ
sends [] = 0
sends (sent ∷ es) = suc (sends es)
sends (received _ ∷ es) = sends es

-- The acknowledgements rise above `a`, and none is above the number of heartbeats sent before it, `n` at first.
abbrev pub Rising : ℕ → ℕ → List Beat → Type 0
Rising n a [] = Unit
Rising n a (sent ∷ es) = Rising (suc n) a es
Rising n a (received h ∷ es) =
    (a < h.acknowledgement) × (h.acknowledgement ≤ n) × Rising n h.acknowledgement es

send_heartbeat_next :
    (l : Liveness)
    → 0 < l.timeout
    → l.sequence + 1 < 2 ^ 64
    → send_heartbeat l ≡ record l { sequence = suc l.sequence }
unfolding send_heartbeat
send_heartbeat_next l t h = ground arith

handle_heartbeat_cases :
    (h : Heartbeat) (l k : Liveness)
    → handle_heartbeat (some h) l ≡ some k
    → (k ≡ record l { acknowledgement = h.acknowledgement })
      × (l.acknowledgement < h.acknowledgement)
      × (h.acknowledgement ≤ l.sequence)
unfolding handle_heartbeat
handle_heartbeat_cases h l k e = ground arith

pub beats-Rising :
    (es : List Beat) (l k : Liveness)
    → 0 < l.timeout
    → l.sequence + sends es < 2 ^ 64
    → beats es l ≡ some k
    → (k.sequence ≡ l.sequence + sends es) × Rising l.sequence l.acknowledgement es
unfolding beats
beats-Rising [] l k t h e = ground (arith, e)
beats-Rising (sent ∷ es) l k t h e =
    let l' = record l { sequence = suc l.sequence } in
    let p : send_heartbeat l ≡ l' = send_heartbeat_next l t (omega (arith, h)) in
    let q : beats es l' ≡ some k = rw (sym p) e in
    let (s, r) = beats-Rising es l' k t (omega (arith, h)) q in (omega (arith, s), r)
beats-Rising (received b ∷ es) l k t h e = elim (Option-cases (handle_heartbeat (some b) l)) [
  | inl none_eq ↦ absurd (ground (arith, e, none_eq))
  | inr (m, some_eq) ↦
      let (p, above, below) = handle_heartbeat_cases b l m some_eq in
      let l' = record l { acknowledgement = b.acknowledgement } in
      let q : beats es l' ≡ some k = rw (sym p) (ground (arith, e, some_eq)) in
      let (s, r) = beats-Rising es l' k t h q in (s, (above, below, r))
]

pub resolve_config_cases :
    (cfg : Option Config) (s : Settings)
    → resolve_config cfg ≡ some s
    → s.enabled ≡ true
    → 0 < s.interval
    → (second ≤ s.interval) × (s.interval ≤ 300 * second) × (s.interval % millisecond ≡ 0)
unfolding resolve_config
resolve_config_cases cfg s e enabled h = ground (arith, e, enabled, h)

pub validate_liveness_cases :
    (enabled : Bool) (interval : ℕ) (n : Option Negotiated) (t : ℕ)
    → validate_liveness enabled interval n ≡ some t
    → 0 < t
    → (enabled ≡ true) × (0 < interval) × (interval ≤ t) × (t ≤ max_timeout) × (t % millisecond ≡ 0)
unfolding validate_liveness
validate_liveness_cases enabled interval none t e h = absurd (ground (arith, e, h))
validate_liveness_cases enabled interval (some n) t e h = ground (arith, e, h)
