-- ===== src/Transport/Auto.antt =====
-- auto_transport.go: `AutoTransport`, shared by many threads. Each critical section under `t.mu` is one
-- function on the fields; what a thread does between two of them is its place in the code. Channels are
-- numbers, given out in order, with the set of the closed ones. `selectTransport` is in Race; here its
-- result is an input of the step that follows it.
pub mod Invariant
pub mod Stale
pub mod Race
pub mod Tests
use rstream_go.Base.{
  ℕ, zero, suc, ◌+◌, ◌-◌, ◌%◌, Bool, true, false, not, ◌&&◌, Option, none, some, List, [], ◌∷◌, ◌≡◌,
  if◌then◌else◌, ◌==◌, get_elem?, set, count, bit, any,
}

pub data Mode : Type 0 where
  tls quic : Mode

-- The fields that `mu` guards, and the channels. The dialer is known by its mode; the zero mode
-- (`auto`) is `none`. `selection_cancel` is set exactly with `selecting` and is left out.
pub record Auto : Type 0 where
  pub selected : Option Mode
  pub selecting : Bool
  pub selection_done : ℕ
  pub selection_waiters : ℕ
  pub cleanup_done : Option ℕ
  pub generation : ℕ
  pub next_chan : ℕ
  pub closed_chans : List ℕ

pub data Outcome : Type 0 where
  -- `net.ErrClosed`, the context's error, a connection by the pinned or the new transport, both failed.
  err_closed : Outcome
  cancelled : Outcome
  pinned : Mode → Outcome
  chosen : Mode → Outcome
  failed : Outcome

-- Where a thread stands: `Dial` with the generation that it has seen, or `Close`.
pub data Place : Type 0 where
  entering : Place
  looping : ℕ → Place
  awaiting_selection : ℕ → ℕ → Place
  awaiting_cleanup : ℕ → ℕ → Place
  selecting_at : ℕ → ℕ → Place
  discarding : ℕ → Option ℕ → Place
  dialed : Outcome → Place
  closing : Place
  closing_selection : ℕ → Place
  closing_cleanup : ℕ → Place
  closed : Place

-- What `selectTransport` returns: a transport, or an error, and the cleanup in the background.
pub record Selection : Type 0 where
  pub choice : Option Mode
  pub cleanup : Bool

abbrev pub generations : ℕ
generations = 18446744073709551616

abbrev pub is_closed : ℕ → Auto → Bool
is_closed c s = any (λ d. d == c) s.closed_chans

-- The critical section at the head of the loop of `Dial`, for the generation `g`.
unfoldable pub admit : ℕ → Auto → Auto × Place
admit g s = elim s.selected [
  | some mode ↦ (s, dialed (pinned mode))
  | none ↦
      if s.selecting
      then (
        record s { selection_waiters = s.selection_waiters + 1 },
        awaiting_selection g s.selection_done,
      )
      else elim s.cleanup_done [
        | some c ↦ (s, awaiting_cleanup g c)
        | none ↦ (
          record s { selecting = true; selection_done = s.next_chan; next_chan = s.next_chan + 1 },
          selecting_at s.generation s.next_chan,
        )
      ]
]

-- With the test of the generation, from the second turn on.
unfoldable pub admit_again : ℕ → Auto → Auto × Place
unfolding admit
admit_again g s = if s.generation == g then admit g s else (s, dialed err_closed)

-- `selecting = false` with `close(done)`.
unfoldable pub end_selection : ℕ → Auto → Auto
end_selection c s = record s { selecting = false; closed_chans = c ∷ s.closed_chans }

abbrev pub outcome_of : Option Mode → Outcome
outcome_of none = failed
outcome_of (some mode) = chosen mode

-- The critical section after `selectTransport`; the cleanup's channel is the next free one.
unfoldable pub settle : ℕ → ℕ → Selection → Auto → Auto × Place
unfolding end_selection
settle g c r s =
    let chan = if r.cleanup then some s.next_chan else none in
    let s' = record s { next_chan = s.next_chan + bit r.cleanup } in
    if s.generation == g
    then (
      end_selection c (record s' {
        selected = elim r.choice [ none ↦ s.selected | some mode ↦ some mode ];
        cleanup_done = elim chan [ none ↦ s.cleanup_done | some d ↦ some d ];
      }),
      dialed (outcome_of r.choice),
    )
    else (s', discarding c chan)

-- `if t.cleanupDone == done { t.cleanupDone = nil }`
unfoldable pub forget_cleanup : ℕ → Auto → Auto
forget_cleanup c s = elim s.cleanup_done [
  | none ↦ s
  | some d ↦ if d == c then record s { cleanup_done = none } else s
]

abbrev pub after_closing : Option ℕ → Place
after_closing none = closed
after_closing (some c) = closing_cleanup c

-- The first critical section of `Close`.
unfoldable pub begin_close : Auto → Auto × Place
begin_close s = (
  record s { generation = (s.generation + 1) % generations; selected = none },
  if s.selecting then closing_selection s.selection_done else after_closing s.cleanup_done,
)

-- What may happen to a thread: it goes on, its context ends, or `selectTransport` returns.
pub data Input : Type 0 where
  proceed : Input
  context_done : Input
  returned : Selection → Input

abbrev pub leave_queue : Auto → Auto
leave_queue s = record s { selection_waiters = s.selection_waiters - 1 }

abbrev pub chan_closed : Option ℕ → Auto → Bool
chan_closed none s = true
chan_closed (some c) s = is_closed c s

-- One step of a thread; `none` where it blocks.
unfoldable pub step_place : Place → Input → Auto → Option (Auto × Place)
step_place entering proceed s = some (admit s.generation s)
step_place (looping g) proceed s = some (admit_again g s)
step_place (awaiting_selection g c) context_done s = some (leave_queue s, dialed cancelled)
step_place (awaiting_selection g c) proceed s =
    if is_closed c s then some (leave_queue s, looping g) else none
step_place (awaiting_cleanup g c) context_done s = some (s, dialed cancelled)
step_place (awaiting_cleanup g c) proceed s =
    if is_closed c s then some (forget_cleanup c s, looping g) else none
step_place (selecting_at g c) (returned r) s = some (settle g c r s)
step_place (discarding c chan) proceed s =
    if chan_closed chan s then some (end_selection c s, dialed err_closed) else none
step_place closing proceed s = some (begin_close s)
step_place (closing_selection c) proceed s =
    if is_closed c s then some (s, after_closing s.cleanup_done) else none
step_place (closing_cleanup c) proceed s =
    if is_closed c s then some (forget_cleanup c s, closed) else none
step_place _ _ s = none

-- All threads, and what happens next: a step of one thread, or the end of a cleanup in the background.
pub record System : Type 0 where
  pub auto : Auto
  pub threads : List Place

pub data Action : Type 0 where
  act : ℕ → Input → Action
  cleaned : ℕ → Action

abbrev pub resume : ℕ → List Place → Option (Auto × Place) → System → System
resume i threads none y = y
resume i threads (some (s, place)) y = record { auto = s; threads = set threads i place }

abbrev pub act_at : ℕ → Input → Option Place → System → System
act_at i input none y = y
act_at i input (some place) y = resume i y.threads (step_place place input y.auto) y

unfoldable pub step : System → Action → System
step y (act i input) = act_at i input (get_elem? y.threads i) y
step y (cleaned c) = record y { auto = record y.auto { closed_chans = c ∷ y.auto.closed_chans } }

unfoldable pub run : System → List Action → System
run y [] = y
run y (a ∷ acts) = run (step y a) acts
