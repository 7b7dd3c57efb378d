-- ===== src/Control/Connect.antt =====
-- client.go: `Connect`, from the options to the state of an open control channel. What the engine, the network
-- and the context do in between is the argument: `none` is a failure of the dial, of a write or a read, or the
-- end of the context.
use rstream_go.Base.{
  ℕ, ◌*◌, ◌/◌, ◌%◌, ◌^◌, ◌≤◌, ◌<◌, Bool, false, ◌&&◌, Option, none, some, List, [], ◌≡◌, ap, arith,
  if◌then◌else◌, ◌>>=◌, ltb, bind-some, Text,
}
use mathlib.Core.Path.{subst}
use rstream_go.Control.Heartbeats.{
  Config, Settings, resolve_config, Negotiated, validate_liveness, millisecond, second, Liveness,
  Beat, beats, sends, Rising, beats-Rising, resolve_config_cases, validate_liveness_cases,
}
use rstream_go.Control.Proxy.{ProxyState}

-- The payload of `pb.OpenControlChannelRsp`; `opened none` is an empty one.
pub data ChannelRsp : Type 0 where
  engine_failed : Text → ChannelRsp
  opened : Option (Option Negotiated) → ChannelRsp
  unexpected_rsp : ChannelRsp

-- The interval that the request asks for, in milliseconds, if any.
unfoldable pub asked_liveness : Settings → Option ℕ
asked_liveness s =
    if s.enabled && ltb 0 s.interval then some (s.interval / millisecond % 2 ^ 32) else none

-- The state behind a handshake with this timeout.
abbrev pub connected : Bool → ℕ → ProxyState
connected provider timeout = record {
  control = record {
    liveness = record { timeout = timeout; sequence = 0; acknowledgement = 0 };
    pending = [];
    tunnels = [];
    objects = record { store = []; closed_conns = [] };
    has_provider = provider;
    datagrams = record {
      listeners = [];
      channels = [];
      next_number = 0;
      closings = [];
      closed_listeners = [];
    };
    is_closing = false;
    is_closed = false;
    error = none;
    cleanup = none;
    next_chan = 0;
    replies = [];
    withdrawn = [];
  };
  is_started = false;
  worker_limit = 0;
  workers = 0;
  queue_limit = 0;
  response_limit = 0;
  requests = [];
  in_flight = [];
  responses = [];
  writing = none;
  asked = [];
  written = [];
  abandoned = [];
}

-- What the response makes of the channel.
unfoldable pub accept_rsp : Bool → Settings → ChannelRsp → Option ProxyState
unfolding validate_liveness
accept_rsp provider s (engine_failed _) = none
accept_rsp provider s (opened none) = none
accept_rsp provider s (opened (some n)) = do
  timeout ← validate_liveness s.enabled s.interval n
  some (connected provider timeout)
accept_rsp provider s unexpected_rsp = none

-- `Connect`; the handshake gets the interval that the request asks for.
unfoldable pub connect : Option Config → (Option ℕ → Option ChannelRsp) → Bool → Option ProxyState
unfolding resolve_config asked_liveness accept_rsp
connect cfg handshake provider = do
  s ← resolve_config cfg
  rsp ← handshake (asked_liveness s)
  accept_rsp provider s rsp

-- The state of a channel that was accepted.
abbrev Accepted : Settings → Bool → ProxyState → Type 0
Accepted s provider p =
    (n : Option Negotiated) × (t : ℕ) × (validate_liveness s.enabled s.interval n ≡ some t)
    × (p ≡ connected provider t)

accept_rsp_cases :
    (provider : Bool) (s : Settings) (rsp : ChannelRsp) (p : ProxyState)
    → accept_rsp provider s rsp ≡ some p
    → Accepted s provider p
unfolding accept_rsp
accept_rsp_cases provider s (engine_failed _) p h = absurd (cc)
accept_rsp_cases provider s (opened none) p h = absurd (cc)
accept_rsp_cases provider s unexpected_rsp p h = absurd (cc)
accept_rsp_cases provider s (opened (some n)) p h =
    let (t, e, q) = bind-some (validate_liveness s.enabled s.interval n) _ p h in
    (n, t, e, ground (arith, q))

connect_cases :
    (cfg : Option Config) (handshake : Option ℕ → Option ChannelRsp) (provider : Bool)
    (p : ProxyState)
    → connect cfg handshake provider ≡ some p
    → (s : Settings) × (resolve_config cfg ≡ some s) × Accepted s provider p
unfolding connect
connect_cases cfg handshake provider p h =
    let (s, e, q) = bind-some (resolve_config cfg) _ p h in
    let (rsp, _, r) = bind-some (handshake (asked_liveness s)) _ p q in
    (s, e, accept_rsp_cases provider s rsp p r)

-- A control channel that `Connect` returns with a liveness timeout has asked for its heartbeat interval, which is
-- 1 to 300 seconds in whole milliseconds and not cut to 32 bits, and the engine's timeout is at least
-- this interval, at most 15 minutes and in whole milliseconds.
pub connect-liveness :
    (cfg : Option Config) (handshake : Option ℕ → Option ChannelRsp) (provider : Bool)
    (p : ProxyState)
    → connect cfg handshake provider ≡ some p
    → 0 < p.control.liveness.timeout
    → (s : Settings) × (resolve_config cfg ≡ some s)
      × (asked_liveness s ≡ some (s.interval / millisecond))
      × (s.interval % millisecond ≡ 0)
      × (second ≤ s.interval)
      × (s.interval ≤ 300 * second)
      × (s.interval ≤ p.control.liveness.timeout)
      × (p.control.liveness.timeout ≤ 900 * second)
      × (p.control.liveness.timeout % millisecond ≡ 0)
unfolding asked_liveness
connect-liveness cfg handshake provider p h t =
    let (s, e, (n, timeout, v, q)) = connect_cases cfg handshake provider p h in
    let same : p.control.liveness.timeout ≡ timeout = ap (λ x. x.control.liveness.timeout) q in
    let (on, positive, below, above, whole) =
      validate_liveness_cases s.enabled s.interval n timeout v (ground (arith, t, same)) in
    let (lo, hi, divides) = resolve_config_cases cfg s e on positive in
    (
      s,
      e,
      ground (arith, on, positive, hi),
      divides,
      lo,
      hi,
      ground (arith, below, same),
      ground (arith, above, same),
      rw same whole,
    )

-- On a control channel that `Connect` returns with a liveness timeout, as long as no heartbeat is refused and
-- fewer than 2^64 are sent, the sequence number is the number of heartbeats sent, and each accepted
-- acknowledgement is above the one before it and not above the number of those sent by then.
pub connect-beats :
    (cfg : Option Config) (handshake : Option ℕ → Option ChannelRsp) (provider : Bool)
    (p : ProxyState)
    → connect cfg handshake provider ≡ some p
    → 0 < p.control.liveness.timeout
    → (es : List Beat) (l : Liveness) → sends es < 2 ^ 64
    → beats es p.control.liveness ≡ some l
    → (l.sequence ≡ sends es) × Rising 0 0 es
connect-beats cfg handshake provider p h t es l bound e =
    let (s, _, (n, timeout, _, q)) = connect_cases cfg handshake provider p h in
    let (a, b) =
      beats-Rising es (connected provider timeout).control.liveness l
        (subst (λ (x : ProxyState). 0 < x.control.liveness.timeout) q t) (omega (arith, bound))
        (subst (λ (x : ProxyState). beats es x.control.liveness ≡ some l) q e) in
    (omega (arith, a), b)
