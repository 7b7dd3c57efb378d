-- ===== src/Session.antt =====
-- cmd/rstream/internal/sessiongroup/group.go: a group of sessions, each with a closer. Closers are numbers;
-- `refused` lists those that `Start` has closed, `closings` those that `Close` has closed, `running` the
-- goroutines of the sessions with their identifiers, which `wg` counts, and `ended` the closers of those
-- that are over. Each critical section under `g.mu` is a step; `Close` copies the map in its section and
-- closes the copies behind it, `to_close`. The test for a nil group or closer is left out.
pub mod Closing
pub mod Tests
use rstream_go.Base.{
  ℕ, ◌+◌, ◌%◌, ◌^◌, Bool, true, false, ◌&&◌, List, [], ◌∷◌, ◌++◌, if◌then◌else◌, ◌==◌, is_nil, put,
  drop_key,
}

pub record Group : Type 0 where
  pub active : List (ℕ × ℕ)
  pub next_id : ℕ
  pub is_closed : Bool
  pub is_cancelled : Bool
  pub running : List (ℕ × ℕ)
  pub to_close : List ℕ
  pub refused : List ℕ
  pub closings : List ℕ
  pub ended : List ℕ

unfoldable pub new_group : Group
new_group = record {
  active = [];
  next_id = 0;
  is_closed = false;
  is_cancelled = false;
  running = [];
  to_close = [];
  refused = [];
  closings = [];
  ended = [];
}

-- `Start`, and whether the session runs.
unfoldable pub start : ℕ → Group → Group × Bool
start closer g =
    let id = (g.next_id + 1) % 2 ^ 64 in
    if g.is_closed then (record g { refused = closer ∷ g.refused }, false) else (
      record g {
        next_id = id;
        active = put id closer g.active;
        running = g.running ++ ((id, closer) ∷ []);
      },
      true,
    )

-- The first goroutine with this identifier leaves: its closer, and the others.
unfoldable pub leave : ℕ → List (ℕ × ℕ) → List ℕ × List (ℕ × ℕ)
leave id [] = ([], [])
leave id ((i, c) ∷ rest) =
    let (gone, kept) = leave id rest in if i == id then (c ∷ [], rest) else (gone, (i, c) ∷ kept)

-- What the goroutine of a session does behind `run`: it deletes its identifier and is done.
unfoldable pub finish : ℕ → Group → Group
unfolding leave
finish id g =
    let (gone, kept) = leave id g.running in
    if is_nil gone
    then g
    else record g { active = drop_key id g.active; running = kept; ended = gone ++ g.ended }

abbrev pub closers : List (ℕ × ℕ) → List ℕ
closers [] = []
closers ((_, c) ∷ rest) = c ∷ closers rest

-- The section of `Close`.
unfoldable pub close : Group → Group
close g =
    if g.is_closed
    then g
    else record g { is_closed = true; is_cancelled = true; to_close = closers g.active }

-- `Close` closes the next of its copies.
unfoldable pub close_next : Group → Group
close_next g = elim g.to_close [
  | [] ↦ g
  | c ∷ rest ↦ record g { to_close = rest; closings = c ∷ g.closings }
]

-- The `Close` that has closed the group has passed `wg.Wait`.
abbrev pub has_returned : Group → Bool
has_returned g = g.is_closed && is_nil g.to_close && is_nil g.running

pub data Action : Type 0 where
  starting : ℕ → Action
  finishing : ℕ → Action
  closing : Action
  closing_next : Action

unfoldable pub act : Action → Group → Group
unfolding start finish close close_next
act (starting c) g = (start c g).0
act (finishing id) g = finish id g
act closing g = close g
act closing_next g = close_next g

unfoldable pub run_actions : List Action → Group → Group
unfolding act
run_actions [] g = g
run_actions (a ∷ rest) g = run_actions rest (act a g)

-- The closers that a run hands over.
abbrev pub handed : List Action → List ℕ
handed [] = []
handed (starting c ∷ rest) = c ∷ handed rest
handed (_ ∷ rest) = handed rest
