-- ===== src/Run/Reconciler.antt =====
-- cmd/rstream/internal/reconciler/reconciler.go. The map `active` is a dictionary, and a `range`
-- visits the entries in the order that `Order` gives, so every theorem holds for each order of Go's
-- maps. The starter and the handles are calls into an environment: the n-th call is answered by
-- `Runtime`, and every call is written to the log, so that the theorems can speak of the calls made.
pub mod Step
pub mod Converge
pub mod Handles
pub mod Shutdown
pub mod Names
pub mod Tests
use rstream_go.Base.{
  ℕ, suc, ◌+◌, Bool, true, false, Option, none, some, List, [], ◌∷◌, ◌++◌, ◌≡◌, if◌then◌else◌,
  is_nil, is_some, Text, Dict, lookup, insert, delete, Unique,
}

-- What the reconciler uses of `runmodel.DesiredTunnel`: `Name` and `EqualDesired`.
pub record DesiredOps (D : Type 0) : Type 0 where
  pub name : D → Text
  pub equal_desired : D → D → Bool
  pub equal_desired_refl : (d : D) → equal_desired d d ≡ true

-- The answers of `starter.Start`: an error, a nil handle, a handle.
pub data Started (H : Type 0) : Type 0 where
  start_error : Started H
  nil_handle : Started H
  handle : H → Started H

-- The answer of the n-th call.
pub record Runtime (D H : Type 0) : Type 0 where
  pub start : ℕ → D → Started H
  pub stop : ℕ → H → Bool

-- `handle.Stop` with its success, and `starter.Start` with its handle.
pub data Call (D H : Type 0) : Type 0 where
  stop_call : H → Bool → Call D H
  start_call : D → Started H → Call D H

pub record ActiveTunnel (D H : Type 0) : Type 0 where
  pub desired : D
  pub handle_of : H

pub data Failure : Type 0 where
  stop_removed : Failure
  stop_updated : Failure
  start_failed : Failure
  no_handle : Failure

-- `reconcileRequest`
pub data Request (D : Type 0) : Type 0 where
  reconcile_request : List D → Request D
  stop_request : Request D

-- The state of one pass; `errors` is the joined error, newest first.
pub record Pass (D H : Type 0) : Type 0 where
  pub active : Dict (ActiveTunnel D H)
  pub calls : ℕ
  pub log : List (Call D H)
  pub removed : ℕ
  pub updated : ℕ
  pub created : ℕ
  pub failed : ℕ
  pub errors : List (Text × Failure)

-- The order in which `range` visits a map: every entry once.
pub record Order : Type 1 where
  pub visit : {V : Type 0} → Dict V → Dict V
  pub visit-Unique : {V : Type 0} (m : Dict V) → Unique m → Unique (visit m)
  pub lookup-visit :
      {V : Type 0} (m : Dict V) (k : Text) → Unique m → lookup k (visit m) ≡ lookup k m

module _ {D : Type 0} (ops : DesiredOps D) where
  -- `desiredMap[d.Name] = d` for each `d`.
  unfoldable pub index : Dict D → List D → Dict D
  index m [] = m
  index m (d ∷ ds) = index (insert (ops.name d) d m) ds

module _ {D H : Type 0} (ops : DesiredOps D) (rt : Runtime D H) where
  -- `errors.Join` with `failed++`.
  unfoldable pub fail : Text → Failure → Pass D H → Pass D H
  fail name why s = record s { failed = s.failed + 1; errors = (name, why) ∷ s.errors }

  -- `current.handle.Stop()`: whether it succeeded.
  unfoldable pub stop_handle : H → Pass D H → Bool × Pass D H
  stop_handle h s =
      let ok = rt.stop s.calls h in
      (ok, record s { calls = s.calls + 1; log = stop_call h ok ∷ s.log })

  -- The body of the first loop.
  unfoldable pub remove_one : Dict D → Pass D H → Text × ActiveTunnel D H → Pass D H
  unfolding stop_handle fail
  remove_one desired s (name, current) =
      if is_some (lookup name desired)
      then s
      else let (stopped, s') = stop_handle current.handle_of s in
        if stopped
        then record s' { active = delete name s'.active; removed = s'.removed + 1 }
        else fail name stop_removed s'

  -- What stands behind the answer of the starter.
  pub started_one : Text → D → Pass D H → Started H → Pass D H
  unfolding fail
  started_one name d s start_error = fail name start_failed s
  started_one name d s nil_handle = fail name no_handle s
  started_one name d s (handle h) = record s {
    active = insert name (record { desired = d; handle_of = h }) s.active;
    created = s.created + 1;
  }

  unfoldable pub start_one : Text → D → Pass D H → Pass D H
  unfolding started_one
  start_one name d s =
      let answer = rt.start s.calls d in
      started_one name d (record s { calls = s.calls + 1; log = start_call d answer ∷ s.log })
        answer

  -- An updated tunnel whose old handle has stopped.
  unfoldable pub restart_one : Text → D → Pass D H → Pass D H
  unfolding start_one
  restart_one name d s =
      start_one name d (record s { active = delete name s.active; updated = s.updated + 1 })

  -- The body of the second loop.
  unfoldable pub apply_one : Pass D H → Text × D → Pass D H
  unfolding stop_handle fail
  apply_one s (name, d) = elim (lookup name s.active) [
    | none ↦ start_one name d s
    | some current ↦
        if ops.equal_desired current.desired d
        then s
        else let (stopped, s') = stop_handle current.handle_of s in
          if stopped then restart_one name d s' else fail name stop_updated s'
  ]

  unfoldable pub remove_all : Dict D → Pass D H → Dict (ActiveTunnel D H) → Pass D H
  remove_all desired s [] = s
  remove_all desired s (e ∷ es) = remove_all desired (remove_one desired s e) es

  unfoldable pub apply_all : Pass D H → Dict D → Pass D H
  apply_all s [] = s
  apply_all s (e ∷ es) = apply_all (apply_one s e) es

  abbrev pub begin : Dict (ActiveTunnel D H) → ℕ → List (Call D H) → Pass D H
  begin active calls log = record {
    active = active;
    calls = calls;
    log = log;
    removed = 0;
    updated = 0;
    created = 0;
    failed = 0;
    errors = [];
  }

  module _ (order : Order) where
    -- `reconcile`, from the map of active tunnels, the number of calls made before, and the log.
    unfoldable pub reconcile : Dict (ActiveTunnel D H) → ℕ → List (Call D H) → List D → Pass D H
    reconcile active calls log desired =
        let wanted = index ops [] desired in
        let removed_all = remove_all wanted (begin active calls log) (order.visit active) in
        apply_all removed_all (order.visit wanted)

    -- `stop`: every handle is stopped, and every entry deleted whatever the answer.
    unfoldable pub stop_each : Pass D H → Dict (ActiveTunnel D H) → Pass D H
    unfolding stop_handle
    stop_each s [] = s
    stop_each s ((name, current) ∷ es) =
        let s' = (stop_handle current.handle_of s).1 in
        stop_each (record s' { active = delete name s'.active }) es

    unfoldable pub stop : Pass D H → Pass D H
    unfolding stop_each
    stop s = stop_each s (order.visit s.active)

    -- The loop of `run` over the requests that it receives. The end of the list is a cancelled
    -- context; a stop request ends the loop too. `stop` is the deferred call.
    unfoldable pub run_from : Pass D H → List (Request D) → Pass D H
    run_from s [] = stop s
    run_from s (stop_request ∷ rs) = stop s
    run_from s (reconcile_request desired ∷ rs) =
        run_from (reconcile s.active s.calls s.log desired) rs

    unfoldable pub run : List (Request D) → Pass D H
    unfolding run_from
    run = run_from (begin [] 0 [])

-- The answers of `Reconcile` before it hands the request over.
pub data Refusal : Type 0 where
  invalid_tunnel_name : Refusal
  duplicate_tunnel_name : Refusal

module _ {D : Type 0} (ops : DesiredOps D) where
  -- The loop of `Reconcile` over the names seen so far; the copies are values here.
  unfoldable pub check_names : Dict (Unit {0}) → List D → Option Refusal
  check_names seen [] = none
  check_names seen (d ∷ ds) =
      let rest = check_names (insert (ops.name d) tt seen) ds in
      if is_nil (ops.name d)
      then some invalid_tunnel_name
      else if is_some (lookup (ops.name d) seen)
      then some duplicate_tunnel_name
      else rest
