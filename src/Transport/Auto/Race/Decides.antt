-- ===== src/Transport/Auto/Race/Decides.antt =====
-- How the race ends, told by the events alone.
use rstream_go.Base.{
  ℕ, ◌+◌, ◌-◌, Bool, true, false, not, ◌||◌, ◌&&◌, none, some, List, [], ◌∷◌, ◌++◌, append_assoc,
  ◌≡◌, inl, inr, append-nil, refl, arith, any, bit, Bool-cases, ltb,
}
use rstream_go.Transport.Auto.{Mode, tls, quic}
use rstream_go.Transport.Auto.Race.{
  Event, ctx_done, timer, result, Race, Verdict, running, won, gave_up, both_failed, first_race,
  start_tls, select, undecided, race,
}

module _ {C : Type 0} where
  -- The loop goes on after this event.
  abbrev pub is_idle : Event C → Bool
  is_idle timer = true
  is_idle (result _ none) = true
  is_idle _ = false

  abbrev pub idle : List (Event C) → Bool
  idle [] = true
  idle (e ∷ es) = is_idle e && idle es

  abbrev pub is_answer : Event C → Bool
  is_answer (result _ _) = true
  is_answer _ = false

  abbrev pub answers : List (Event C) → ℕ
  answers [] = 0
  answers (e ∷ es) = bit (is_answer e) + answers es

  abbrev pub fails_quic : Event C → Bool
  fails_quic (result quic none) = true
  fails_quic _ = false

  abbrev pub fails_tls : Event C → Bool
  fails_tls (result tls none) = true
  fails_tls _ = false

  -- TLS is started by the timer and by the failure of QUIC.
  abbrev pub triggers : Event C → Bool
  triggers timer = true
  triggers e = fails_quic e

  -- The dials that have been started and have not answered.
  abbrev pub pending : List (Event C) → ℕ
  pending es = 1 + bit (any triggers es) - answers es

  abbrev pub over : List (Event C) → Bool
  over es = any triggers es && not (ltb (answers es) 2)

  -- The verdict is that of the first event that decides, or of the failures before it.
  pub data Decides (es : List (Event C)) : Verdict C → Type 0 where
    by_conn :
        (pre post : List (Event C)) (mode : Mode) (c : C) (n : ℕ)
        → es ≡ pre ++ result mode (some c) ∷ post
        → idle pre ≡ true
        → n ≡ 1 + bit (any triggers pre) - (answers pre + 1)
        → Decides es (won c mode n)
    by_context :
        (pre post : List (Event C)) (n : ℕ)
        → es ≡ pre ++ ctx_done ∷ post
        → idle pre ≡ true
        → n ≡ pending pre
        → Decides es (gave_up n)
    by_failures :
        (pre post : List (Event C)) (q t : Bool)
        → es ≡ pre ++ post
        → idle pre ≡ true
        → over pre ≡ true
        → q ≡ any fails_quic pre
        → t ≡ any fails_tls pre
        → Decides es (both_failed q t)
    not_yet :
        (r : Race)
        → idle es ≡ true
        → over es ≡ false
        → r.tls_started ≡ any triggers es
        → Decides es (running r)

  -- The variables of the loop, told by the events received.
  record Tracks (pre : List (Event C)) (r : Race) : Type 0 where
    started_is : r.started ≡ 1 + bit (any triggers pre)
    completed_is : r.completed ≡ answers pre
    tls_started_is : r.tls_started ≡ any triggers pre
    quic_failed_is : r.quic_failed ≡ any fails_quic pre
    tls_failed_is : r.tls_failed ≡ any fails_tls pre
    idle_is : idle pre ≡ true

  any-concat :
      (p : Event C → Bool) (pre : List (Event C)) (e : Event C)
      → any p (pre ++ e ∷ []) ≡ (any p pre || p e)
  any-concat p [] e = ground arith
  any-concat p (x ∷ pre) e = ground (arith, any-concat p pre e)

  answers-concat :
      (pre : List (Event C)) (e : Event C)
      → answers (pre ++ e ∷ []) ≡ answers pre + bit (is_answer e)
  answers-concat [] e = omega arith
  answers-concat (x ∷ pre) e = omega (arith, answers-concat pre e)

  idle-concat :
      (pre : List (Event C)) (e : Event C) → idle (pre ++ e ∷ []) ≡ (idle pre && is_idle e)
  idle-concat [] e = ground arith
  idle-concat (x ∷ pre) e = ground (arith, idle-concat pre e)

  -- One more event that decides nothing.
  select-Tracks :
      (pre : List (Event C)) (r : Race) (e : Event C) {r' : Race}
      → Tracks pre r
      → select e r ≡ running r'
      → Tracks (pre ++ e ∷ []) r'
  unfolding select
  select-Tracks pre r timer k h = ground (
    arith,
    any-concat triggers pre timer,
    answers-concat pre timer,
    any-concat fails_quic pre timer,
    any-concat fails_tls pre timer,
    idle-concat pre timer,
  )
  select-Tracks pre r (result quic none) k h =
      let e : Event C = result quic none in
      ground (
        arith,
        any-concat triggers pre e,
        answers-concat pre e,
        any-concat fails_quic pre e,
        any-concat fails_tls pre e,
        idle-concat pre e,
      )
  select-Tracks pre r (result tls none) k h =
      let e : Event C = result tls none in
      ground (
        arith,
        any-concat triggers pre e,
        answers-concat pre e,
        any-concat fails_quic pre e,
        any-concat fails_tls pre e,
        idle-concat pre e,
      )
  select-Tracks pre r (result mode (some c)) k h = absurd (cc)
  select-Tracks pre r ctx_done k h = absurd (cc)

  undecided-over : (pre : List (Event C)) (r : Race) → Tracks pre r → undecided r ≡ not (over pre)
  unfolding undecided
  undecided-over pre r k = ground arith

  failed_before :
      (pre post : List (Event C)) (r : Race)
      → Tracks pre r
      → undecided r ≡ false
      → Decides (pre ++ post) (both_failed r.quic_failed r.tls_failed)
  failed_before pre post r k e =
      by_failures pre post r.quic_failed r.tls_failed refl k.idle_is
        (ground (arith, undecided-over pre r k)) k.quic_failed_is k.tls_failed_is

  race-idle :
      (r r' : Race) (e : Event C) (es : List (Event C))
      → undecided r ≡ true
      → select e r ≡ running r'
      → race r (e ∷ es) ≡ race r' es
  unfolding race
  race-idle r r' e es u h = rw (u, h, race)

  race-conn :
      (r : Race) (mode : Mode) (c : C) (es : List (Event C))
      → undecided r ≡ true
      → race r (result mode (some c) ∷ es) ≡ won c mode (r.started - (r.completed + 1))
  unfolding race
  race-conn r mode c es u = rw (u, race) (unfold select in refl)

  race-ctx_done :
      (r : Race) (es : List (Event C))
      → undecided r ≡ true
      → race r (ctx_done ∷ es) ≡ gave_up (r.started - r.completed)
  unfolding race
  race-ctx_done r es u = rw (u, race) (unfold select in refl)

  race-stop :
      (r : Race) (e : Event C) (es : List (Event C))
      → undecided r ≡ false
      → race r (e ∷ es) ≡ both_failed r.quic_failed r.tls_failed
  unfolding race
  race-stop r e es u = rw (u, race)

  -- The next event, if it decides or not; what follows an idle event is given.
  race-event :
      (pre : List (Event C)) (r : Race) (e : Event C) (es : List (Event C))
      → Tracks pre r
      → undecided r ≡ true
      → ((r' : Race) → select e r ≡ running r' → Decides (pre ++ e ∷ es) (race r' es))
      → Decides (pre ++ e ∷ es) (race r (e ∷ es))
  race-event pre r (result mode (some c)) es k u next =
      rw (race-conn r mode c es u)
        (by_conn pre es mode c _ refl k.idle_is (omega (arith, k.started_is, k.completed_is)))
  race-event pre r ctx_done es k u next =
      rw (race-ctx_done r es u)
        (by_context pre es _ refl k.idle_is (omega (arith, k.started_is, k.completed_is)))
  race-event pre r timer es k u next =
      let h : select {C = C} timer r ≡ running (start_tls r) = unfold select in refl in
      rw (race-idle r (start_tls r) timer es u h) (next (start_tls r) h)
  race-event pre r (result quic none) es k u next =
      let t = start_tls (record r { completed = r.completed + 1; quic_failed = true }) in
      let h : select {C = C} (result quic none) r ≡ running t = unfold select in refl in
      rw (race-idle r t (result quic none) es u h) (next t h)
  race-event pre r (result tls none) es k u next =
      let t = record r { completed = r.completed + 1; tls_failed = true } in
      let h : select {C = C} (result tls none) r ≡ running t = unfold select in refl in
      rw (race-idle r t (result tls none) es u h) (next t h)

  race-Decides :
      (pre : List (Event C)) (r : Race) (es : List (Event C))
      → Tracks pre r
      → Decides (pre ++ es) (race r es)
  race-Decides pre r [] k = elim (Bool-cases (undecided r)) [
    | inl e ↦ rw append-nil (
        unfold race in
        rw e (not_yet r k.idle_is (ground (arith, undecided-over pre r k)) k.tls_started_is))
    | inr e ↦ unfold race in rw e (failed_before pre [] r k e)
  ]
  race-Decides pre r (e ∷ es) k = elim (Bool-cases (undecided r)) [
    | inr stop ↦ rw (race-stop r e es stop) (failed_before pre (e ∷ es) r k stop)
    | inl more ↦ race-event pre r e es k more (λ r' h.
        rw append_assoc at (race-Decides (pre ++ e ∷ []) r' es (select-Tracks pre r e k h)))
  ]

  -- The verdict of `selectTransport` is that of the first event that decides: the first connection, the
  -- end of the context before one, or the second failure with TLS started. The cleanup then waits
  -- for exactly the dials that were started and had not answered; and without such an event the
  -- loop goes on, with TLS started just if the timer fired or QUIC failed.
  pub race-Decided : (es : List (Event C)) → Decides es (race first_race es)
  unfolding first_race
  race-Decided es = race-Decides [] _ es (record {
    started_is = refl;
    completed_is = refl;
    tls_started_is = refl;
    quic_failed_is = refl;
    tls_failed_is = refl;
    idle_is = refl;
  })
