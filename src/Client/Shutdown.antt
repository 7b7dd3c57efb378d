-- ===== src/Client/Shutdown.antt =====
-- client.go: what `Close` leaves behind.
use rstream_go.Base.{ℕ, ◌+◌, List, [], ◌∷◌}
use rstream_go.Client.{Client, Op, begins_dial}

-- The dials that a sequence of steps asks for.
abbrev pub begun : List Op → ℕ
begun [] = 0
begun (begins_dial ∷ os) = 1 + begun os
begun (_ ∷ os) = begun os
