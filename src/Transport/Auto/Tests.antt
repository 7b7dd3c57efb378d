-- ===== src/Transport/Auto/Tests.antt =====
-- Runs of the automatic transport.
use rstream_go.Base.{
  ℕ, true, false, none, some, List, [], ◌∷◌, ◌≡◌, refl, arith, get_elem?, set, count,
}
use rstream_go.Transport.Auto.{
  tls, quic, Place, entering, closing, selecting_at, dialed, chosen, pinned, Action, act, Input,
  proceed, returned, Selection, System, run, step, step_place, admit, admit_again, settle,
  end_selection,
}
use rstream_go.Transport.Auto.Invariant.{Inv, zero_auto, run-zero_auto-Inv}
use rstream_go.Transport.Auto.Stale.{IsStale, run-IsStale, run-selected, will_close}
use rstream_go.Transport.Auto.Race.{
  Event, timer, result, first_race, race, won, start_tls, receive, select, undecided,
}
use rstream_go.Transport.Auto.Race.Decides.{Decides, race-Decided}

abbrev quic_wins : Selection
quic_wins = record { choice = some quic; cleanup = false }

abbrev two_dials : List Place
two_dials = entering ∷ entering ∷ closing ∷ []

-- The first dial is elected, the second waits; QUIC is chosen and the second goes on.
abbrev happy : List Action
happy =
    act 0 proceed ∷ act 1 proceed ∷ act 0 (returned quic_wins) ∷ act 1 proceed ∷ act 1 proceed ∷ []

abbrev start : System
start = record { auto = zero_auto; threads = two_dials }

happy-run :
    ((run start happy).auto.selected ≡ some quic)
    × ((run start happy).threads ≡ dialed (chosen quic) ∷ dialed (pinned quic) ∷ closing ∷ [])
unfolding run step step_place admit admit_again settle end_selection get_elem? set
happy-run = (refl, refl)

run-zero_auto-Inv_example : Inv (run start happy)
run-zero_auto-Inv_example = run-zero_auto-Inv two_dials happy (tt, (tt, (tt, tt)))

-- The first of two dials has chosen QUIC; the second waits for it and goes on.
abbrev two_fresh : System
two_fresh = record { auto = zero_auto; threads = entering ∷ entering ∷ [] }

abbrev electing : List Action
electing = act 0 proceed ∷ act 1 proceed ∷ act 0 (returned quic_wins) ∷ []

electing-pinned :
    ((run two_fresh electing).auto.selected ≡ some quic)
    × (count will_close (run two_fresh electing).threads ≡ 0)
unfolding run step step_place admit admit_again settle end_selection get_elem? set count
electing-pinned = (refl, refl)

run-selected_example :
    (run (run two_fresh electing) (act 1 proceed ∷ act 1 proceed ∷ [])).auto.selected ≡ some quic
run-selected_example =
    run-selected (run two_fresh electing) (act 1 proceed ∷ act 1 proceed ∷ [])
      (run-zero_auto-Inv (entering ∷ entering ∷ []) electing (tt, (tt, tt))) electing-pinned.0
      electing-pinned.1

-- A `Close` overtakes the first dial's selection.
abbrev overtaken : System
overtaken = record {
  auto = record zero_auto { selecting = true; generation = 1; next_chan = 1 };
  threads = selecting_at 0 0 ∷ entering ∷ [];
}

run-IsStale_example :
    let t = run overtaken (act 0 (returned quic_wins) ∷ act 0 proceed ∷ []) in
    (x' : Place) × (get_elem? t.threads 0 ≡ some x')
    × IsStale t.auto x'
    × ((input : Input) → (step t (act 0 input)).auto.selected ≡ t.auto.selected)
unfolding get_elem?
run-IsStale_example =
    run-IsStale overtaken (act 0 (returned quic_wins) ∷ act 0 proceed ∷ []) 0 (selecting_at 0 0)
      (omega arith) refl (omega arith)

abbrev late_tls : List (Event ℕ)
late_tls = timer ∷ result quic none ∷ result tls (some 5) ∷ []

late_tls_wins : race first_race late_tls ≡ won 5 tls 0
unfolding race first_race select receive start_tls undecided
late_tls_wins = refl

race-Decided_example : Decides late_tls (race first_race late_tls)
race-Decided_example = race-Decided late_tls
