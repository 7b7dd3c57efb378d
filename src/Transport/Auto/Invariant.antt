-- ===== src/Transport/Auto/Invariant.antt =====
-- What holds between any two critical sections, whatever the threads do.
use rstream_go.Base.{
  ℕ, zero, suc, ◌+◌, ◌≤◌, Bool, true, false, Option, none, some, List, [], ◌∷◌, ◌≡◌, ◌⊎◌, inl, inr,
  refl, arith, Option-cases, get_elem?, count, bit, count-set, get_elem?-set_cases, bit-le-count,
  bit-add-bit-le-count, All,
}
use rstream_go.Transport.Auto.{
  Auto, Place, entering, looping, awaiting_selection, awaiting_cleanup, selecting_at, discarding,
  closing, closing_selection, closing_cleanup, is_closed, admit, admit_again, settle, end_selection,
  forget_cleanup, begin_close, Input, proceed, context_done, returned, step_place, System, Action,
  act, cleaned, resume, step, run,
}

-- The thread has the selection to itself.
abbrev pub is_selecting : Place → Bool
is_selecting (selecting_at g c) = true
is_selecting (discarding c chan) = true
is_selecting _ = false

abbrev pub is_waiting : Place → Bool
is_waiting (awaiting_selection g c) = true
is_waiting _ = false

-- A thread that waits for `c` will be woken: `c` is closed, or is the channel of the selection that
-- is in progress.
abbrev pub Listens : ℕ → Auto → Type 0
Listens c s = (is_closed c s ≡ true) ⊎ ((s.selecting ≡ true) × (s.selection_done ≡ c))

abbrev pub Fits : Auto → Place → Type 0
Fits s (awaiting_selection g c) = Listens c s
Fits s (closing_selection c) = Listens c s
Fits s (selecting_at g c) = (s.selection_done ≡ c) × (s.generation ≡ g → s.selected ≡ none)
Fits s (discarding c chan) = s.selection_done ≡ c
Fits s _ = Unit

pub record Inv (y : System) : Type 0 where
  pub exclusive : count is_selecting y.threads ≡ bit y.auto.selecting
  pub waiters : count is_waiting y.threads ≡ y.auto.selection_waiters
  pub fits : (j : ℕ) (x : Place) → get_elem? y.threads j ≡ some x → Fits y.auto x

-- What one step of a thread at `p` owes to the invariant.
record Kept (s : Auto) (p : Place) (t : Auto) (q : Place) : Type 0 where
  kept_selecting : bit (is_selecting q) + bit s.selecting ≡ bit (is_selecting p) + bit t.selecting
  kept_waiters : bit (is_waiting q) + s.selection_waiters ≡ bit (is_waiting p) + t.selection_waiters
  kept_fits : Fits t q

step_place-Kept :
    (p : Place) (input : Input) (s : Auto) {t : Auto} {q : Place}
    → Fits s p
    → bit (is_selecting p) ≤ bit s.selecting
    → bit (is_waiting p) ≤ s.selection_waiters
    → step_place p input s ≡ some (t, q)
    → Kept s p t q
unfolding step_place admit_again admit settle end_selection forget_cleanup begin_close
step_place-Kept entering proceed s f b w h = ground arith
step_place-Kept (looping g) proceed s f b w h = ground arith
step_place-Kept (awaiting_selection g c) proceed s f b w h = ground arith
step_place-Kept (awaiting_selection g c) context_done s f b w h = ground arith
step_place-Kept (awaiting_cleanup g c) proceed s f b w h = ground arith
step_place-Kept (awaiting_cleanup g c) context_done s f b w h = ground arith
step_place-Kept (selecting_at g c) (returned r) s f b w h = ground arith
step_place-Kept (discarding c chan) proceed s f b w h = ground arith
step_place-Kept closing proceed s f b w h = ground arith
step_place-Kept (closing_selection c) proceed s f b w h = ground arith
step_place-Kept (closing_cleanup c) proceed s f b w h = ground arith
step_place-Kept _ _ s f b w h = absurd (cc)

-- What it owes to a thread that does not move.
step_place-Fits :
    (p : Place) (input : Input) (s : Auto) {t : Auto} {q : Place} (x : Place)
    → Fits s p
    → Fits s x
    → bit (is_selecting p) + bit (is_selecting x) ≤ bit s.selecting
    → step_place p input s ≡ some (t, q)
    → Fits t x
unfolding step_place admit_again admit settle end_selection forget_cleanup begin_close
step_place-Fits entering proceed s x f g b h = ground arith
step_place-Fits (looping g) proceed s x f k b h = ground arith
step_place-Fits (awaiting_selection g c) proceed s x f k b h = ground arith
step_place-Fits (awaiting_selection g c) context_done s x f k b h = ground arith
step_place-Fits (awaiting_cleanup g c) proceed s x f k b h = ground arith
step_place-Fits (awaiting_cleanup g c) context_done s x f k b h = ground arith
step_place-Fits (selecting_at g c) (returned r) s x f k b h = ground arith
step_place-Fits (discarding c chan) proceed s x f k b h = ground arith
step_place-Fits closing proceed s x f k b h = ground arith
step_place-Fits (closing_selection c) proceed s x f k b h = ground arith
step_place-Fits (closing_cleanup c) proceed s x f k b h = ground arith
step_place-Fits _ _ s x f k b h = absurd (cc)

resume-Inv :
    (y : System) (i : ℕ) (p : Place) (input : Input) (r : Option (Auto × Place))
    → Inv y
    → get_elem? y.threads i ≡ some p
    → step_place p input y.auto ≡ r
    → Inv (resume i y.threads r y)
resume-Inv y i p input none v at_i h = v
resume-Inv y i p input (some (t, q)) v at_i h =
    let selecting_le : bit (is_selecting p) ≤ bit y.auto.selecting =
      omega (arith, v.exclusive, bit-le-count is_selecting y.threads i p at_i) in
    let waiting_le : bit (is_waiting p) ≤ y.auto.selection_waiters =
      omega (arith, v.waiters, bit-le-count is_waiting y.threads i p at_i) in
    let k = step_place-Kept p input y.auto (v.fits i p at_i) selecting_le waiting_le h in
    record {
      exclusive =
          omega (arith, v.exclusive, k.kept_selecting, count-set is_selecting y.threads i p q at_i);
      waiters = omega (arith, v.waiters, k.kept_waiters, count-set is_waiting y.threads i p q at_i);
      fits = λ j x e. elim (get_elem?-set_cases y.threads i j q x e) [
        | inl same ↦ rw same k.kept_fits
        | inr (ne, at_j) ↦
            step_place-Fits p input y.auto x (v.fits i p at_i) (v.fits j x at_j)
              (omega (
                arith,
                v.exclusive,
                bit-add-bit-le-count is_selecting y.threads i j p x ne at_i at_j,
              ))
              h
      ];
    }

Fits-cleaned :
    (c : ℕ) (s : Auto) (x : Place)
    → Fits s x
    → Fits (record s { closed_chans = c ∷ s.closed_chans }) x
Fits-cleaned c s x f = ground arith

pub step-Inv : (y : System) (a : Action) → Inv y → Inv (step y a)
unfolding step
step-Inv y (cleaned c) v = record {
  exclusive = v.exclusive;
  waiters = v.waiters;
  fits = λ j x e. Fits-cleaned c y.auto x (v.fits j x e);
}
step-Inv y (act i input) v = elim (Option-cases (get_elem? y.threads i)) [
  | inl absent ↦ rw absent v
  | inr (p, at_i) ↦ rw at_i (resume-Inv y i p input (step_place p input y.auto) v at_i refl)
]

pub run-Inv : (y : System) (acts : List Action) → Inv y → Inv (run y acts)
unfolding run
run-Inv y [] v = v
run-Inv y (a ∷ acts) v = run-Inv (step y a) acts (step-Inv y a v)

-- A thread at the start of `Dial` or of `Close`.
abbrev pub IsFresh : Place → Type 0
IsFresh entering = Unit
IsFresh closing = Unit
IsFresh _ = ⊥

abbrev pub zero_auto : Auto
zero_auto = record {
  selected = none;
  selecting = false;
  selection_done = 0;
  selection_waiters = 0;
  cleanup_done = none;
  generation = 0;
  next_chan = 0;
  closed_chans = [];
}

count-fresh :
    (ps : List Place) → All IsFresh ps → (count is_selecting ps ≡ 0) × (count is_waiting ps ≡ 0)
unfolding count
count-fresh [] f = (refl, refl)
count-fresh (p ∷ ps) (f, fs) = ground (arith, count-fresh ps fs)

fresh-Fits :
    (s : Auto) (ps : List Place) (j : ℕ) (x : Place)
    → All IsFresh ps
    → get_elem? ps j ≡ some x
    → Fits s x
unfolding get_elem?
fresh-Fits s [] j x f e = absurd (cc)
fresh-Fits s (p ∷ ps) zero x (f, fs) e = ground arith
fresh-Fits s (p ∷ ps) (suc j) x (f, fs) e = fresh-Fits s ps j x fs e

-- The zero value of `AutoTransport`, with any number of threads about to call `Dial` or `Close`.
pub zero_auto-Inv :
    (ps : List Place) → All IsFresh ps → Inv (record { auto = zero_auto; threads = ps })
zero_auto-Inv ps f = record {
  exclusive = omega (arith, count-fresh ps f);
  waiters = omega (arith, count-fresh ps f);
  fits = λ j x e. fresh-Fits zero_auto ps j x f e;
}

-- From the zero value, with any number of threads about to call `Dial` or `Close`, whatever they do
-- and in whatever order: `selecting` is set exactly while one thread is between its election and its
-- `close(done)`, and no two ever are; `selection_waiters` is the number of threads that wait; a
-- thread that waits for a selection, in `Dial` or in `Close`, waits for a channel that is closed or
-- that belongs to the selection in progress, so no wake-up is lost.
pub run-zero_auto-Inv :
    (ps : List Place) (acts : List Action)
    → All IsFresh ps
    → Inv (run (record { auto = zero_auto; threads = ps }) acts)
run-zero_auto-Inv ps acts f = run-Inv _ acts (zero_auto-Inv ps f)
