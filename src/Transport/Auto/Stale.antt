-- ===== src/Transport/Auto/Stale.antt =====
-- A `Close` ends the calls of `Dial` that were under way: none of them returns a connection by a new
-- transport or pins one. A pinned transport stays until a `Close`.
use rstream_go.Base.{
  ℕ, ◌+◌, ◌≤◌, ◌<◌, Bool, true, false, Option, none, some, List, [], ◌∷◌, ◌≡◌, inl, inr, refl, ◌∙◌,
  arith, Option-cases, get_elem?, count, count-set, get_elem?-set_self, get_elem?-set_ne,
  bit-le-count, length,
}
use native.Mathlib.Decide.{ℕ_discrete}
use rstream_go.Transport.Auto.{
  Mode, Auto, err_closed, cancelled, Place, entering, looping, awaiting_selection, awaiting_cleanup,
  selecting_at, discarding, dialed, closing, closing_selection, closing_cleanup, generations, admit,
  admit_again, settle, end_selection, forget_cleanup, begin_close, Input, proceed, context_done,
  returned, step_place, System, Action, act, cleaned, resume, step, run,
}
use rstream_go.Transport.Auto.Invariant.{Inv, Fits, step-Inv}

-- A call of `Dial` that began before the last `Close`, or has ended with an error.
abbrev pub IsStale : Auto → Place → Type 0
IsStale s (looping g) = g < s.generation
IsStale s (awaiting_selection g c) = g < s.generation
IsStale s (awaiting_cleanup g c) = g < s.generation
IsStale s (selecting_at g c) = g < s.generation
IsStale s (discarding c chan) = Unit
IsStale s (dialed err_closed) = Unit
IsStale s (dialed cancelled) = Unit
IsStale s _ = ⊥

-- Its own step: it stays stale, and pins nothing.
step_place-IsStale :
    (p : Place) (input : Input) (s : Auto) {t : Auto} {q : Place}
    → IsStale s p
    → step_place p input s ≡ some (t, q)
    → IsStale t q × (t.selected ≡ s.selected) × (t.generation ≡ s.generation)
unfolding step_place admit_again settle end_selection forget_cleanup
step_place-IsStale entering proceed s f h = elim f [ ]
step_place-IsStale (looping g) proceed s f h = ground arith
step_place-IsStale (awaiting_selection g c) proceed s f h = ground arith
step_place-IsStale (awaiting_selection g c) context_done s f h = ground arith
step_place-IsStale (awaiting_cleanup g c) proceed s f h = ground arith
step_place-IsStale (awaiting_cleanup g c) context_done s f h = ground arith
step_place-IsStale (selecting_at g c) (returned r) s f h = ground arith
step_place-IsStale (discarding c chan) proceed s f h = ground arith
step_place-IsStale _ _ s f h = ground arith

-- The generation grows by at most one at a step, as long as it does not wrap.
step_place-generation :
    (p : Place) (input : Input) (s : Auto) {t : Auto} {q : Place}
    → s.generation + 1 < generations
    → step_place p input s ≡ some (t, q)
    → (s.generation ≤ t.generation) × (t.generation ≤ s.generation + 1)
unfolding step_place admit_again admit settle end_selection forget_cleanup begin_close
step_place-generation entering proceed s w h = ground arith
step_place-generation (looping g) proceed s w h = ground arith
step_place-generation (awaiting_selection g c) proceed s w h = ground arith
step_place-generation (awaiting_selection g c) context_done s w h = ground arith
step_place-generation (awaiting_cleanup g c) proceed s w h = ground arith
step_place-generation (awaiting_cleanup g c) context_done s w h = ground arith
step_place-generation (selecting_at g c) (returned r) s w h = ground arith
step_place-generation (discarding c chan) proceed s w h = ground arith
step_place-generation closing proceed s w h = ground arith
step_place-generation (closing_selection c) proceed s w h = ground arith
step_place-generation (closing_cleanup c) proceed s w h = ground arith
step_place-generation _ _ s w h = absurd (cc)

IsStale-mono : (s t : Auto) (x : Place) → s.generation ≤ t.generation → IsStale s x → IsStale t x
IsStale-mono s t x le f = ground arith

-- What a step of the system leaves of a stale thread.
record StaleAt (y : System) (i : ℕ) (low high : ℕ) : Type 0 where
  place : Place
  at_i : get_elem? y.threads i ≡ some place
  stale : IsStale y.auto place
  grows : low ≤ y.auto.generation
  within : y.auto.generation ≤ high

resume-StaleAt :
    (y : System) (i j : ℕ) (p x : Place) (input : Input) (r : Option (Auto × Place))
    → y.auto.generation + 1 < generations
    → get_elem? y.threads j ≡ some p
    → step_place p input y.auto ≡ r
    → get_elem? y.threads i ≡ some x
    → IsStale y.auto x
    → StaleAt (resume j y.threads r y) i y.auto.generation (y.auto.generation + 1)
resume-StaleAt y i j p x input none w at_j h at_i st = record {
  place = x;
  at_i = at_i;
  stale = st;
  grows = omega arith;
  within = omega arith;
}
resume-StaleAt y i j p x input (some (t, q)) w at_j h at_i st =
    let (lo, hi) = step_place-generation p input y.auto w h in
    elim (ℕ_discrete j i) [
      | yes e ↦
          let same : p ≡ x = some_inj (rw e at at_j) at_i in
          record {
            place = q;
            at_i = rw e (get_elem?-set_self y.threads i x q at_i);
            stale = (step_place-IsStale p input y.auto (rw same st) h).0;
            grows = lo;
            within = hi;
          }
      | no ne ↦ record {
        place = x;
        at_i = get_elem?-set_ne y.threads j i q ne ∙ at_i;
        stale = IsStale-mono y.auto t x lo st;
        grows = lo;
        within = hi;
      }
    ]
  where
    some_inj : {a b : Place} {o : Option Place} → o ≡ some a → o ≡ some b → a ≡ b
    some_inj h k = cc

step-StaleAt :
    (y : System) (a : Action) (i : ℕ) (x : Place)
    → y.auto.generation + 1 < generations
    → get_elem? y.threads i ≡ some x
    → IsStale y.auto x
    → StaleAt (step y a) i y.auto.generation (y.auto.generation + 1)
unfolding step
step-StaleAt y (cleaned c) i x w at_i st = record {
  place = x;
  at_i = at_i;
  stale =
      IsStale-mono y.auto (record y.auto { closed_chans = c ∷ y.auto.closed_chans }) x (omega arith)
        st;
  grows = omega arith;
  within = omega arith;
}
step-StaleAt y (act j input) i x w at_i st = elim (Option-cases (get_elem? y.threads j)) [
  | inl absent ↦
      rw absent
        (record { place = x; at_i = at_i; stale = st; grows = omega arith; within = omega arith })
  | inr (p, at_j) ↦
      rw at_j (resume-StaleAt y i j p x input (step_place p input y.auto) w at_j refl at_i st)
]

-- A stale thread, when it moves, changes neither the pinned transport nor the generation.
stale_pins_nothing :
    (y : System) (i : ℕ) (input : Input) (x : Place)
    → get_elem? y.threads i ≡ some x
    → IsStale y.auto x
    → (step y (act i input)).auto.selected ≡ y.auto.selected
unfolding step
stale_pins_nothing y i input x at_i st = rw at_i (go (step_place x input y.auto) refl)
  where
    go :
        (r : Option (Auto × Place))
        → step_place x input y.auto ≡ r
        → (resume i y.threads r y).auto.selected ≡ y.auto.selected
    go none h = refl
    go (some (t, q)) h = (step_place-IsStale x input y.auto st h).1

-- A thread in `Dial` that has seen an older generation than the present one, whatever happens next
-- (as long as the 64-bit generation does not wrap): it never returns a connection by a new or a
-- pinned transport, and at no later moment does a step of it change the pinned transport.
pub run-IsStale :
    (y : System) (acts : List Action) (i : ℕ) (x : Place)
    → y.auto.generation + length acts < generations
    → get_elem? y.threads i ≡ some x
    → IsStale y.auto x
    → (x' : Place) × (get_elem? (run y acts).threads i ≡ some x')
      × IsStale (run y acts).auto x'
      × ((input : Input)
          → (step (run y acts) (act i input)).auto.selected ≡ (run y acts).auto.selected)
unfolding run
run-IsStale y [] i x w at_i st = (x, at_i, st, λ input. stale_pins_nothing y i input x at_i st)
run-IsStale y (a ∷ acts) i x w at_i st =
    let s = step-StaleAt y a i x (omega arith) at_i st in
    run-IsStale (step y a) acts i s.place (omega (arith, s.within)) s.at_i s.stale

-- A thread that is about to call `Close`.
abbrev pub will_close : Place → Bool
will_close closing = true
will_close _ = false

step_place-pinned :
    (p : Place) (input : Input) (s : Auto) {t : Auto} {q : Place} {m : Mode}
    → Fits s p
    → will_close p ≡ false
    → s.selected ≡ some m
    → step_place p input s ≡ some (t, q)
    → (t.selected ≡ some m) × (will_close q ≡ false)
unfolding step_place admit_again admit settle end_selection forget_cleanup
step_place-pinned entering proceed s f c k h = ground arith
step_place-pinned (looping g) proceed s f c k h = ground arith
step_place-pinned (awaiting_selection g ch) proceed s f c k h = ground arith
step_place-pinned (awaiting_selection g ch) context_done s f c k h = ground arith
step_place-pinned (awaiting_cleanup g ch) proceed s f c k h = ground arith
step_place-pinned (awaiting_cleanup g ch) context_done s f c k h = ground arith
step_place-pinned (selecting_at g ch) (returned r) s f c k h = ground arith
step_place-pinned (discarding ch chan) proceed s f c k h = ground arith
step_place-pinned (closing_selection ch) proceed s f c k h = ground arith
step_place-pinned (closing_cleanup ch) proceed s f c k h = ground arith
step_place-pinned _ _ s f c k h = ground arith

-- A transport is pinned and no thread is about to call `Close`.
record IsPinned (m : Mode) (y : System) : Type 0 where
  pinned_is : y.auto.selected ≡ some m
  no_closer : count will_close y.threads ≡ 0

resume-IsPinned :
    {m : Mode} (y : System) (i : ℕ) (p : Place) (input : Input) (r : Option (Auto × Place))
    → Inv y
    → IsPinned m y
    → get_elem? y.threads i ≡ some p
    → step_place p input y.auto ≡ r
    → IsPinned m (resume i y.threads r y)
resume-IsPinned y i p input none v c at_i h = c
resume-IsPinned y i p input (some (t, q)) v c at_i h =
    let calm : will_close p ≡ false =
      ground (arith, c.no_closer, bit-le-count will_close y.threads i p at_i) in
    let (same, calm') = step_place-pinned p input y.auto (v.fits i p at_i) calm c.pinned_is h in
    record {
      pinned_is = same;
      no_closer = ground (arith, c.no_closer, count-set will_close y.threads i p q at_i);
    }

step-IsPinned : {m : Mode} (y : System) (a : Action) → Inv y → IsPinned m y → IsPinned m (step y a)
unfolding step
step-IsPinned y (cleaned ch) v c = record { pinned_is = c.pinned_is; no_closer = c.no_closer }
step-IsPinned y (act i input) v c = elim (Option-cases (get_elem? y.threads i)) [
  | inl absent ↦ rw absent c
  | inr (p, at_i) ↦ rw at_i (resume-IsPinned y i p input (step_place p input y.auto) v c at_i refl)
]

run-IsPinned :
    {m : Mode} (y : System) (acts : List Action) → Inv y → IsPinned m y → IsPinned m (run y acts)
unfolding run
run-IsPinned y [] v c = c
run-IsPinned y (a ∷ acts) v c =
    run-IsPinned (step y a) acts (step-Inv y a v) (step-IsPinned y a v c)

-- From a system with the invariant in which a transport is pinned and no thread is about to call
-- `Close`, that transport stays pinned, whatever the threads do.
pub run-selected :
    {m : Mode} (y : System) (acts : List Action)
    → Inv y
    → y.auto.selected ≡ some m
    → count will_close y.threads ≡ 0
    → (run y acts).auto.selected ≡ some m
run-selected y acts v p c =
    (run-IsPinned y acts v (record { pinned_is = p; no_closer = c })).pinned_is
