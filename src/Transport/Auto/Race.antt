-- ===== src/Transport/Auto/Race.antt =====
-- auto_transport.go, `selectTransport`: QUIC has a head start, TLS follows at the timer or when QUIC has
-- failed, and the first connection wins. The dials and the timer run elsewhere: what the `select`
-- receives is a list of events. A dial's result is its connection, or `none` for its error.
pub mod Decides
use rstream_go.Base.{
  ℕ, suc, ◌+◌, ◌-◌, Bool, true, false, not, ◌||◌, Option, none, some, List, [], ◌∷◌, ◌++◌, ltb,
  if◌then◌else◌, ◌==◌,
}
use rstream_go.Transport.Auto.{Mode, tls, quic}

pub data Event (C : Type 0) : Type 0 where
  ctx_done : Event C
  timer : Event C
  result : Mode → Option C → Event C

-- The local variables of the loop; the two errors are known by their presence.
pub record Race : Type 0 where
  pub started : ℕ
  pub completed : ℕ
  pub tls_started : Bool
  pub quic_failed : Bool
  pub tls_failed : Bool

-- What `selectTransport` returns, with the number of results that its cleanup waits for, or the
-- loop's next round.
pub data Verdict (C : Type 0) : Type 0 where
  running : Race → Verdict C
  won : C → Mode → ℕ → Verdict C
  gave_up : ℕ → Verdict C
  both_failed : Bool → Bool → Verdict C

unfoldable pub first_race : Race
first_race = record {
  started = 1;
  completed = 0;
  tls_started = false;
  quic_failed = false;
  tls_failed = false;
}

-- `startTLS`
unfoldable pub start_tls : Race → Race
start_tls r = if r.tls_started then r else record r { tls_started = true; started = r.started + 1 }

-- `case result := <-results`
unfoldable pub receive : {C : Type 0} → Mode → Option C → Race → Verdict C
unfolding start_tls
receive mode (some c) r = won c mode (r.started - (r.completed + 1))
receive quic none r =
    running (start_tls (record r { completed = r.completed + 1; quic_failed = true }))
receive tls none r = running (record r { completed = r.completed + 1; tls_failed = true })

unfoldable pub select : {C : Type 0} → Event C → Race → Verdict C
unfolding receive start_tls
select ctx_done r = gave_up (r.started - r.completed)
select timer r = running (start_tls r)
select (result mode o) r = receive mode o r

-- The condition of the loop.
unfoldable pub undecided : Race → Bool
undecided r = ltb r.completed r.started || not r.tls_started

-- The test of the loop's condition before a round.
abbrev pub round : {C : Type 0} → Verdict C → Verdict C
round (running r) = if undecided r then running r else both_failed r.quic_failed r.tls_failed
round v = v

unfoldable pub race : {C : Type 0} → Race → List (Event C) → Verdict C
race r [] = round (running r)
race r (e ∷ es) = elim (undecided r) [
  | false ↦ both_failed r.quic_failed r.tls_failed
  | true ↦ elim (select e r) [
    | running r' ↦ race r' es
    | won c mode n ↦ won c mode n
    | gave_up n ↦ gave_up n
    | both_failed a b ↦ both_failed a b
  ]
]

-- `cleanupAutoTransportResults`: the connections closed, and how often the QUIC transport was.
pub record Cleaned (C : Type 0) : Type 0 where
  pub conns : List C
  pub quic_closed : ℕ

abbrev pub is_quic : Mode → Bool
is_quic quic = true
is_quic tls = false

-- No winner is `none`.
abbrev pub wins_quic : Option Mode → Bool
wins_quic (some quic) = true
wins_quic _ = false

unfoldable pub cleanup_results : {C : Type 0} → List (Mode × Option C) → Option Mode → Cleaned C
cleanup_results [] winner = record { conns = []; quic_closed = 0 }
cleanup_results ((mode, o) ∷ rest) winner =
    let after = cleanup_results rest winner in
    record {
      conns = elim o [ none ↦ after.conns | some c ↦ c ∷ after.conns ];
      quic_closed =
          if is_quic mode
          then (if wins_quic winner then after.quic_closed else after.quic_closed + 1)
          else after.quic_closed;
    }
