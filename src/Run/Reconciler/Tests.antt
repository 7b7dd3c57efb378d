-- ===== src/Run/Reconciler/Tests.antt =====
-- Runs of the reconciler over tunnels that are a name and a version.

use rstream_go.Base.{
  ℕ, true, false, ◌&&◌, none, some, List, [], ◌∷◌, ◌≡◌, ◌↔◌, refl, arith, ◌==◌, if◌then◌else◌, Text,
  codes, equal, equal_refl, Dict, lookup, Unique, insert, delete,
}
use mathlib.Core.List.{Memᴰ}
use rstream_go.Run.Reconciler.{
  DesiredOps, Runtime, handle, start_error, ActiveTunnel, Order, reconcile, reconcile_request, run,
  begin, index, check_names, stop_request, apply_one, remove_one, start_one, restart_one,
  remove_all, apply_all, stop_updated,
}
use rstream_go.Run.Reconciler.Step.{Settled}
use rstream_go.Run.Reconciler.Converge.{reconcile-Settled}
use rstream_go.Run.Reconciler.Handles.{Balanced, reconcile-Balanced}
use rstream_go.Run.Reconciler.Shutdown.{Accounted, run-Accounted}
use rstream_go.Run.Reconciler.Names.{IsNamed, check_names_iff}

abbrev Tunnel : Type 0
Tunnel = Text × ℕ

same_tunnel_refl : (d : Tunnel) → (equal d.0 d.0 && (d.1 == d.1)) ≡ true
same_tunnel_refl d = ground (arith, equal_refl d.0)

abbrev ops : DesiredOps Tunnel
ops = record {
  name = λ d. d.0;
  equal_desired = λ a b. equal a.0 b.0 && (a.1 == b.1);
  equal_desired_refl = same_tunnel_refl;
}

-- The handle is the number of the call; handle 7 cannot be stopped, and version 9 does not start.
abbrev rt : Runtime Tunnel ℕ
rt = record {
  start = λ n d. if d.1 == 9 then start_error else handle n;
  stop = λ n h. if h == 7 then false else true;
}

abbrev in_place : Order
in_place = record { visit = λ m. m; visit-Unique = λ m u. u; lookup-visit = λ m k u. refl }

abbrev running : Dict (ActiveTunnel Tunnel ℕ)
running =
    (codes "a", record { desired = (codes "a", 1); handle_of = 3 })
    ∷ (codes "b", record { desired = (codes "b", 1); handle_of = 7 })
    ∷ (codes "c", record { desired = (codes "c", 1); handle_of = 5 })
    ∷ []

running-Unique : Unique running
unfolding lookup equal
running-Unique = (refl, (refl, (refl, tt)))

abbrev wanted : List Tunnel
wanted = (codes "a", 1) ∷ (codes "b", 2) ∷ (codes "d", 1) ∷ []

-- `a` keeps its handle, `b` cannot be stopped, `c` is removed and `d` is started.
reconcile_run :
    let t = reconcile ops rt in_place running 10 [] wanted in
    (lookup (codes "a") t.active ≡ some (record { desired = (codes "a", 1); handle_of = 3 }))
    × (lookup (codes "b") t.active ≡ some (record { desired = (codes "b", 1); handle_of = 7 }))
    × (lookup (codes "c") t.active ≡ none)
    × (lookup (codes "d") t.active ≡ some (record { desired = (codes "d", 1); handle_of = 12 }))
    × (t.errors ≡ (codes "b", stop_updated) ∷ [])
unfolding reconcile remove_all apply_all remove_one apply_one start_one restart_one index lookup
    insert delete equal
reconcile_run = (refl, refl, refl, refl, refl)

reconcile-Settled_example :
    Settled ops rt
      (codes "b")
      (lookup (codes "b") (index ops [] wanted))
      (lookup (codes "b") running)
      (reconcile ops rt in_place running 10 [] wanted)
reconcile-Settled_example =
    reconcile-Settled ops rt in_place running 10 [] wanted (codes "b") running-Unique

reconcile-Balanced_example :
    Balanced (λ h. h) (begin ops rt running 10 []) (reconcile ops rt in_place running 10 [] wanted)
reconcile-Balanced_example =
    reconcile-Balanced ops rt (λ h. h) in_place running 10 [] wanted running-Unique

run-Accounted_example :
    Accounted ops rt
      (λ h. h)
      in_place
      (run ops rt in_place (reconcile_request wanted ∷ stop_request ∷ []))
run-Accounted_example =
    run-Accounted ops rt (λ h. h) in_place (reconcile_request wanted ∷ stop_request ∷ [])

check_names_iff_example :
    ((check_names ops [] wanted ≡ none) ↔ IsNamed ops wanted)
    × ((d : Tunnel)
        → check_names ops [] wanted ≡ none
        → Memᴰ d wanted
        → lookup d.0 (index ops [] wanted) ≡ some d)
check_names_iff_example = check_names_iff ops wanted
