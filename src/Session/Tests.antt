-- ===== src/Session/Tests.antt =====
-- One session ends, two are closed with the group, of which one is over before its turn, and one comes too
-- late.
use rstream_go.Base.{◌+◌, ◌≤◌, true, false, List, [], ◌∷◌, ◌≡◌, refl, arith, put, drop_key}
use rstream_go.Session.{
  Action, starting, finishing, closing, closing_next, start, finish, leave, close, close_next,
  closers, handed, act, run_actions, new_group, has_returned,
}
use rstream_go.Session.Closing.{times, run_actions-handed}

abbrev four : List Action
four =
    starting 7
    ∷ starting 8
    ∷ finishing 1
    ∷ starting 6
    ∷ closing
    ∷ finishing 3
    ∷ closing_next
    ∷ starting 9
    ∷ closing_next
    ∷ []

four-closed :
    ((run_actions four new_group).is_closed ≡ true) × ((run_actions four new_group).to_close ≡ [])
unfolding run_actions act start finish leave close close_next new_group put drop_key
four-closed = (refl, refl)

-- `Close` waits for the session that still runs.
four-returned :
    (has_returned (run_actions four new_group) ≡ false)
    × (has_returned (finish 2 (run_actions four new_group)) ≡ true)
unfolding run_actions act start finish leave close close_next new_group put drop_key
four-returned = (refl, refl)

run_actions-handed_example :
    let g = run_actions four new_group in
    (times 8 (handed four) ≡ times 8 g.refused + times 8 (closers g.running) + times 8 g.ended)
    × (times 8 (handed four) ≤ times 8 g.refused + times 8 g.closings + times 8 g.ended)
    × (times 8 g.refused + times 8 g.closings ≤ times 8 (handed four))
run_actions-handed_example = run_actions-handed four 8 (omega arith) four-closed.0 four-closed.1
