-- ===== src/Client/Tests.antt =====
-- client.go: dials and the choice of a transport while the client closes.
use rstream_go.Base.{◌≡◌, refl, true, false, List, [], ◌∷◌, get_elem?, set, put, drop_key}
use rstream_go.Client.{
  begins_dial, selects, closes, ends_dial, cancels_dial, Op, apply, apply_all, new_client,
  begin_dial, default_transport, close_step, end_dial, end_cancel,
}
use rstream_go.Client.Shutdown

-- Three dials: one has ended before `Close`, one ends while `Close` cancels, and one is cancelled by `Close`.
abbrev close_between : List Op
close_between =
    begins_dial
    ∷ begins_dial
    ∷ begins_dial
    ∷ ends_dial 0
    ∷ selects
    ∷ closes
    ∷ begins_dial
    ∷ cancels_dial 0
    ∷ ends_dial 1
    ∷ closes
    ∷ selects
    ∷ closes
    ∷ closes
    ∷ closes
    ∷ []

close_between-dials :
    (apply_all close_between (new_client false false)).dials
    ≡ record { id = 1; is_ending = true; is_cancelled = true }
      ∷ record { id = 2; is_ending = true; is_cancelled = false }
      ∷ record { id = 3; is_ending = false; is_cancelled = true }
      ∷ []
unfolding apply_all apply begin_dial default_transport close_step end_dial end_cancel get_elem? set
    put drop_key
close_between-dials = refl
