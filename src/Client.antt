-- ===== src/Client.antt =====
-- client.go: the pending dials and the transport of a `Client`, and its `Close`, in critical sections. A dial is an
-- object with a number, its place in `dials`; transports are numbers.
pub mod Dials
pub mod Kept
pub mod Shutdown
pub mod Tests
use rstream_go.Base.{
  ℕ, ◌+◌, ◌%◌, ◌^◌, Bool, true, false, Option, none, some, List, [], ◌∷◌, ◌++◌, if◌then◌else◌, ◌==◌,
  length, get_elem?, set, put, drop_key,
}

-- The context of a dial: the identifier that its cancel function has in the map, whether the function that
-- `beginDial` returns has run its critical section, and whether the context was cancelled.
pub record Dial : Type 0 where
  pub id : ℕ
  pub is_ending : Bool
  pub is_cancelled : Bool

-- `Client`; `dial_cancels` maps the identifiers to the dials whose cancel functions they stand for. `stage` says how
-- many of its sections `Close` has passed, with `taken` the dials that it is about to cancel.
pub record Client : Type 0 where
  pub is_closed : Bool
  pub next_dial_id : ℕ
  pub dials : List Dial
  pub dial_cancels : List (ℕ × ℕ)
  pub taken : List ℕ
  pub transport : Option ℕ
  pub owns_transport : Bool
  pub next_transport : ℕ
  pub closed_transports : List ℕ
  pub stage : ℕ

-- `beginDial`, and whether there is a dial.
unfoldable pub begin_dial : Client → Client × Bool
begin_dial c =
    let id = (c.next_dial_id + 1) % 2 ^ 64 in
    let d : Dial = record { id = id; is_ending = false; is_cancelled = false } in
    if c.is_closed then (c, false) else (
      record c {
        next_dial_id = id;
        dials = c.dials ++ (d ∷ []);
        dial_cancels = put id (length c.dials) c.dial_cancels;
      },
      true,
    )

-- The critical section of the function that it returns, for the dial `n`.
unfoldable pub end_dial : ℕ → Client → Client
end_dial n c = elim (get_elem? c.dials n) [
  | none ↦ c
  | some d ↦ record c {
    dials = set c.dials n (record d { is_ending = true });
    dial_cancels = drop_key d.id c.dial_cancels;
  }
]

abbrev pub cancel_at : ℕ → List Dial → List Dial
cancel_at n ds = elim (get_elem? ds n) [
  | none ↦ ds
  | some d ↦ set ds n (record d { is_cancelled = true })
]

-- Its `cancel()` behind that section.
unfoldable pub end_cancel : ℕ → Client → Client
end_cancel n c = elim (get_elem? c.dials n) [
  | none ↦ c
  | some d ↦ if d.is_ending then record c { dials = cancel_at n c.dials } else c
]

-- `defaultTunnelTransport`; `none` is `closedClientDialer`.
unfoldable pub default_transport : Client → Client × Option ℕ
default_transport c = if c.is_closed then (c, none) else elim c.transport [
  | some t ↦ (c, some t)
  | none ↦ (
    record c {
      transport = some c.next_transport;
      owns_transport = true;
      next_transport = c.next_transport + 1;
    },
    some c.next_transport,
  )
]

abbrev pub owned : Option ℕ → Bool → List ℕ
owned none owns = []
owned (some t) owns = if owns then t ∷ [] else []

abbrev pub values : List (ℕ × ℕ) → List ℕ
values [] = []
values ((_, n) ∷ m) = n ∷ values m

-- The next step of the one run of `Close`: it stores the flag, takes the map, cancels the dials that it has taken one by
-- one, and closes the transport.
unfoldable pub close_step : Client → Client
close_step c =
    if c.stage == 0
    then record c { is_closed = true; stage = 1 }
    else if c.stage == 1
    then record c { taken = values c.dial_cancels; dial_cancels = []; stage = 2 }
    else if c.stage == 2
    then elim c.taken [
      | [] ↦ record c { stage = 3 }
      | n ∷ rest ↦ record c { taken = rest; dials = cancel_at n c.dials }
    ]
    else if c.stage == 3
    then record c {
      closed_transports = owned c.transport c.owns_transport ++ c.closed_transports;
      stage = 4;
    }
    else c

pub data Op : Type 0 where
  begins_dial selects closes : Op
  ends_dial cancels_dial : ℕ → Op

unfoldable pub apply : Op → Client → Client
unfolding begin_dial end_dial end_cancel default_transport close_step
apply begins_dial c = (begin_dial c).0
apply (ends_dial n) c = end_dial n c
apply (cancels_dial n) c = end_cancel n c
apply selects c = (default_transport c).0
apply closes c = close_step c

unfoldable pub apply_all : List Op → Client → Client
unfolding apply
apply_all [] c = c
apply_all (o ∷ os) c = apply_all os (apply o c)

-- A new client, with the caller's transport 0 or without one.
abbrev pub new_client : Bool → Bool → Client
new_client given owns = record {
  is_closed = false;
  next_dial_id = 0;
  dials = [];
  dial_cancels = [];
  taken = [];
  transport = if given then some 0 else none;
  owns_transport = owns;
  next_transport = 1;
  closed_transports = [];
  stage = 0;
}
