-- ===== src/Run/Reconciler/Step.antt =====
-- What one turn of each loop of `reconcile` does to one name.
use rstream_go.Base.{
  ◌+◌, Bool, true, false, Option, none, some, List, ◌≡◌, ◌⊎◌, inl, inr, refl, ◌∙◌, arith,
  Bool-cases, Option-cases, any, Text, equal, equal_iff, Dict, lookup, delete, lookup-insert,
  lookup-delete,
}
use rstream_go.Run.Reconciler.{
  DesiredOps, Started, start_error, nil_handle, handle, Runtime, ActiveTunnel, Failure, Pass,
  remove_one, started_one, start_one, restart_one, stop_updated, apply_one, fail, stop_handle,
}

-- Some error of the pass is about `k`.
abbrev pub named : Text → List (Text × Failure) → Bool
named k = any (λ e. equal e.0 k)

module _ {D H : Type 0} (ops : DesiredOps D) (rt : Runtime D H) where
  -- The four ways through the body of the second loop.
  pub data Applied (s : Pass D H) (name : Text) (d : D) : Pass D H → Type 0 where
    fresh :
        {t : Pass D H}
        → lookup name s.active ≡ none
        → t ≡ start_one ops rt name d s
        → Applied s name d t
    unchanged :
        {t : Pass D H} (a : ActiveTunnel D H)
        → lookup name s.active ≡ some a
        → ops.equal_desired a.desired d ≡ true
        → t ≡ s
        → Applied s name d t
    restarted :
        {t : Pass D H} (a : ActiveTunnel D H)
        → lookup name s.active ≡ some a
        → ops.equal_desired a.desired d ≡ false
        → rt.stop s.calls a.handle_of ≡ true
        → t ≡ restart_one ops rt name d (stop_handle ops rt a.handle_of s).1
        → Applied s name d t
    kept :
        {t : Pass D H} (a : ActiveTunnel D H)
        → lookup name s.active ≡ some a
        → ops.equal_desired a.desired d ≡ false
        → rt.stop s.calls a.handle_of ≡ false
        → t ≡ fail ops rt name stop_updated (stop_handle ops rt a.handle_of s).1
        → Applied s name d t

  pub apply_one-Applied :
      (s : Pass D H) (name : Text) (d : D) → Applied s name d (apply_one ops rt s (name, d))
  unfolding apply_one
  apply_one-Applied s name d = elim (Option-cases (lookup name s.active)) [
    | inl absent ↦ fresh absent (rw (absent, apply_one))
    | inr (a, found) ↦ elim (Bool-cases (ops.equal_desired a.desired d)) [
      | inl e ↦ unchanged a found e (rw (found, e, apply_one))
      | inr e ↦ elim (Bool-cases (rt.stop s.calls a.handle_of)) [
        | inl ok ↦ restarted a found e ok (rw (found, e, ok, apply_one))
        | inr ok ↦ kept a found e ok (rw (found, e, ok, apply_one))
      ]
    ]
  ]

module _ {D H : Type 0} (ops : DesiredOps D) (rt : Runtime D H) (k : Text) where
  -- The map holds what is wanted for `k`.
  abbrev pub Holds : Option D → Dict (ActiveTunnel D H) → Type 0
  Holds none m = lookup k m ≡ none
  Holds (some d) m =
      (a : ActiveTunnel D H) × (lookup k m ≡ some a) × (ops.equal_desired a.desired d ≡ true)

  -- `k` is as wanted, or an error names it and it is as before or stopped.
  abbrev pub Settled : Option D → Option (ActiveTunnel D H) → Pass D H → Type 0
  Settled wanted before s =
      Holds wanted s.active
      ⊎ ((named k s.errors ≡ true) × ((lookup k s.active ≡ before) ⊎ (lookup k s.active ≡ none)))

  -- Nothing about `k` has changed.
  pub record Same (s t : Pass D H) : Type 0 where
    pub same_active : lookup k t.active ≡ lookup k s.active
    pub same_errors : named k t.errors ≡ named k s.errors

  pub remove_one-Same :
      (desired : Dict D) (s : Pass D H) (name : Text) (a : ActiveTunnel D H)
      → equal name k ≡ false
      → Same s (remove_one ops rt desired s (name, a))
  unfolding remove_one
  remove_one-Same desired s name a ne = ground (arith, lookup-delete name k s.active)

  pub remove_one-wanted :
      (desired : Dict D) (s : Pass D H) (name : Text) (a : ActiveTunnel D H) {d : D}
      → lookup k desired ≡ some d
      → Same s (remove_one ops rt desired s (name, a))
  unfolding remove_one
  remove_one-wanted desired s name a h =
      ground (arith, lookup-delete name k s.active, equal_iff name k)

  pub remove_one-Settled :
      (desired : Dict D) (s : Pass D H) (name : Text) (a : ActiveTunnel D H)
      → lookup k desired ≡ none
      → equal name k ≡ true
      → Settled none (lookup k s.active) (remove_one ops rt desired s (name, a))
  unfolding remove_one
  remove_one-Settled desired s name a h e =
      ground (arith, lookup-delete name k s.active, equal_iff name k)

  started_one-Same :
      (s : Pass D H) (name : Text) (d : D) (answer : Started H)
      → equal name k ≡ false
      → Same s (started_one ops rt name d s answer)
  unfolding started_one
  started_one-Same s name d start_error ne = ground arith
  started_one-Same s name d nil_handle ne = ground arith
  started_one-Same s name d (handle h) ne = record {
    same_active = rw (lookup-insert name k _ s.active, ne);
    same_errors = refl;
  }

  start_one-Same :
      (s : Pass D H) (name : Text) (d : D)
      → equal name k ≡ false
      → Same s (start_one ops rt name d s)
  unfolding start_one
  start_one-Same s name d ne =
      let t = started_one-Same _ name d (rt.start s.calls d) ne in
      record { same_active = t.same_active; same_errors = t.same_errors }

  restart_one-Same :
      (s : Pass D H) (name : Text) (d : D)
      → equal name k ≡ false
      → Same s (restart_one ops rt name d s)
  unfolding restart_one
  restart_one-Same s name d ne =
      let deleted = record s { active = delete name s.active; updated = s.updated + 1 } in
      ground (arith, start_one-Same deleted name d ne, lookup-delete name k s.active)

  started_one-Settled :
      (s : Pass D H) (name : Text) (d : D) (answer : Started H)
      → equal name k ≡ true
      → Holds (some d) (started_one ops rt name d s answer).active
        ⊎ ((named k (started_one ops rt name d s answer).errors ≡ true)
            × (lookup k (started_one ops rt name d s answer).active ≡ lookup k s.active))
  unfolding started_one
  started_one-Settled s name d start_error e = inr (rw e, refl)
  started_one-Settled s name d nil_handle e = inr (rw e, refl)
  started_one-Settled s name d (handle h) e = inl (
    record { desired = d; handle_of = h },
    rw (lookup-insert name k _ s.active, e),
    ops.equal_desired_refl d,
  )

  start_one-Settled :
      (s : Pass D H) (name : Text) (d : D)
      → equal name k ≡ true
      → Holds (some d) (start_one ops rt name d s).active
        ⊎ ((named k (start_one ops rt name d s).errors ≡ true)
            × (lookup k (start_one ops rt name d s).active ≡ lookup k s.active))
  unfolding start_one
  start_one-Settled s name d e = started_one-Settled _ name d (rt.start s.calls d) e

  restart_one-Settled :
      (s : Pass D H) (name : Text) (d : D)
      → equal name k ≡ true
      → Holds (some d) (restart_one ops rt name d s).active
        ⊎ ((named k (restart_one ops rt name d s).errors ≡ true)
            × (lookup k (restart_one ops rt name d s).active ≡ none))
  unfolding restart_one
  restart_one-Settled s name d e =
      let deleted = record s { active = delete name s.active; updated = s.updated + 1 } in
      elim (start_one-Settled deleted name d e) [
        | inl h ↦ inl h
        | inr (n, l) ↦ inr (n, l ∙ rw (lookup-delete name k s.active, e))
      ]

  apply_one-Same_of :
      (s t : Pass D H) (name : Text) (d : D)
      → equal name k ≡ false
      → Applied ops rt s name d t
      → Same s t
  apply_one-Same_of s t name d ne (fresh absent e) = rw e (start_one-Same s name d ne)
  apply_one-Same_of s t name d ne (unchanged a found same e) =
      rw e (record { same_active = refl; same_errors = refl })
  apply_one-Same_of s t name d ne (restarted a found new ok e) =
      let r = restart_one-Same (stop_handle ops rt a.handle_of s).1 name d ne in
      rw e
        (unfold stop_handle in record { same_active = r.same_active; same_errors = r.same_errors })
  apply_one-Same_of s t name d ne (kept a found new ok e) =
      rw e (unfold stop_handle fail in record { same_active = refl; same_errors = rw ne })

  pub apply_one-Same :
      (s : Pass D H) (name : Text) (d : D)
      → equal name k ≡ false
      → Same s (apply_one ops rt s (name, d))
  apply_one-Same s name d ne = apply_one-Same_of s _ name d ne (apply_one-Applied ops rt s name d)

  apply_one-Settled_of :
      (s t : Pass D H) (name : Text) (d : D)
      → equal name k ≡ true
      → Applied ops rt s name d t
      → Settled (some d) (lookup k s.active) t
  apply_one-Settled_of s t name d e (fresh absent p) =
      rw p (elim (start_one-Settled s name d e) [ inl h ↦ inl h | inr (n, l) ↦ inr (n, inl l) ])
  apply_one-Settled_of s t name d e (unchanged a found same p) =
      rw p (inl (a, (rw ((equal_iff name k).0 e) at found), same))
  apply_one-Settled_of s t name d e (restarted a found new ok p) =
      rw p (elim (restart_one-Settled (stop_handle ops rt a.handle_of s).1 name d e) [
        | inl h ↦ inl h
        | inr (n, l) ↦ inr (n, inr l)
      ])
  apply_one-Settled_of s t name d e (kept a found new ok p) =
      rw p (unfold stop_handle fail in inr (rw e, inl refl))

  pub apply_one-Settled :
      (s : Pass D H) (name : Text) (d : D)
      → equal name k ≡ true
      → Settled (some d) (lookup k s.active) (apply_one ops rt s (name, d))
  apply_one-Settled s name d e =
      apply_one-Settled_of s _ name d e (apply_one-Applied ops rt s name d)
