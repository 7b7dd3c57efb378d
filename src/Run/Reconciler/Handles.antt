-- ===== src/Run/Reconciler/Handles.antt =====
-- The handles of tunnels: none is lost and none is stopped twice with success.
use rstream_go.Base.{
  ℕ, ◌+◌, true, none, some, List, [], ◌∷◌, ◌≡◌, inl, inr, refl, ◌∙◌, sym, equal_refl, arith,
  Bool-cases, Text, equal, equal_iff, Dict, lookup, delete, Unique, Unique-insert, Unique-delete,
  weight, weight-delete, weight-insert, lookup-delete,
}
use rstream_go.Run.Reconciler.{
  DesiredOps, Runtime, Call, stop_call, start_call, Started, start_error, nil_handle, handle,
  ActiveTunnel, Pass, Order, fail, stop_handle, remove_one, started_one, start_one, restart_one,
  apply_one, remove_all, apply_all, index, begin, reconcile,
}
use rstream_go.Run.Reconciler.Step.{
  Applied, fresh, unchanged, restarted, kept, apply_one-Applied, remove_one-Same,
}

module _ {D H : Type 0} (f : H → ℕ) where
  -- The weight of the handles that the starter gave.
  abbrev pub started : List (Call D H) → ℕ
  started [] = 0
  started (start_call d (handle h) ∷ log) = f h + started log
  started (_ ∷ log) = started log

  -- The weight of the handles stopped with success.
  abbrev pub stopped : List (Call D H) → ℕ
  stopped [] = 0
  stopped (stop_call h true ∷ log) = f h + stopped log
  stopped (_ ∷ log) = stopped log

  abbrev pub live : Dict (ActiveTunnel D H) → ℕ
  live = weight (λ a. f a.handle_of)

  -- From `s` to `t` every handle is accounted for, and the map stays a map.
  pub record Balanced (s t : Pass D H) : Type 0 where
    pub balance :
        live t.active + stopped t.log + started s.log
        ≡ live s.active + stopped s.log + started t.log
    pub is_unique : Unique t.active

module _ {D H : Type 0} (ops : DesiredOps D) (rt : Runtime D H) (f : H → ℕ) where
  Balanced-refl : (s : Pass D H) → Unique s.active → Balanced f s s
  Balanced-refl s u = record { balance = refl; is_unique = u }

  pub Balanced-trans : {s t v : Pass D H} → Balanced f s t → Balanced f t v → Balanced f s v
  Balanced-trans a b = record {
    balance = omega (arith, a.balance, b.balance);
    is_unique = b.is_unique;
  }

  remove_one-Balanced :
      (desired : Dict D) (s : Pass D H) (name : Text) (a : ActiveTunnel D H)
      → Unique s.active
      → lookup name s.active ≡ some a
      → Balanced f s (remove_one ops rt desired s (name, a))
  unfolding remove_one
  remove_one-Balanced desired s name a u found =
      let w = weight-delete (λ b. f b.handle_of) name s.active u in
      let u' = Unique-delete name s.active u in ground (arith, found, w, u')

  started_one-Balanced :
      (s : Pass D H) (name : Text) (d : D) (answer : Started H)
      → Unique s.active
      → lookup name s.active ≡ none
      → Balanced f s (
          started_one ops rt name d
            (record s { calls = s.calls + 1; log = start_call d answer ∷ s.log })
            answer)
  unfolding started_one
  started_one-Balanced s name d start_error u absent = record { balance = refl; is_unique = u }
  started_one-Balanced s name d nil_handle u absent = record { balance = refl; is_unique = u }
  started_one-Balanced s name d (handle h) u absent = record {
    balance = omega (
      arith,
      weight-insert (λ b. f b.handle_of) name (record { desired = d; handle_of = h }) s.active
          absent,
    );
    is_unique = Unique-insert name _ s.active u;
  }

  start_one-Balanced :
      (s : Pass D H) (name : Text) (d : D)
      → Unique s.active
      → lookup name s.active ≡ none
      → Balanced f s (start_one ops rt name d s)
  unfolding start_one
  start_one-Balanced s name d = started_one-Balanced s name d (rt.start s.calls d)

  restart_one-Balanced :
      (s : Pass D H) (name : Text) (d : D) {a : ActiveTunnel D H}
      → Unique s.active
      → lookup name s.active ≡ some a
      → rt.stop s.calls a.handle_of ≡ true
      → Balanced f s (restart_one ops rt name d (stop_handle ops rt a.handle_of s).1)
  unfolding restart_one stop_handle
  restart_one-Balanced s name d {a} u found ok =
      let t = record s {
        calls = s.calls + 1;
        log = stop_call a.handle_of true ∷ s.log;
        active = delete name s.active;
        updated = s.updated + 1;
      } in
      let w = weight-delete (λ b. f b.handle_of) name s.active u in
      let started =
        start_one-Balanced t name d (Unique-delete name s.active u)
          (rw (lookup-delete name name s.active, equal_refl name)) in
      rw ok (
        Balanced-trans {s = s} {t = t}
          (record {
            balance = omega (arith, rw found at w);
            is_unique = Unique-delete name s.active u;
          })
          started)

  apply_one-Balanced_of :
      (s t : Pass D H) (name : Text) (d : D)
      → Unique s.active
      → Applied ops rt s name d t
      → Balanced f s t
  apply_one-Balanced_of s t name d u (fresh absent e) = rw e (start_one-Balanced s name d u absent)
  apply_one-Balanced_of s t name d u (unchanged a found same e) = rw e (Balanced-refl s u)
  apply_one-Balanced_of s t name d u (restarted a found new ok e) =
      rw e (restart_one-Balanced s name d u found ok)
  apply_one-Balanced_of s t name d u (kept a found new ok e) =
      rw e (unfold stop_handle fail in rw ok (record { balance = refl; is_unique = u }))

  apply_all-Balanced :
      (s : Pass D H) (es : Dict D) → Unique s.active → Balanced f s (apply_all ops rt s es)
  unfolding apply_all
  apply_all-Balanced s [] u = Balanced-refl s u
  apply_all-Balanced s ((name, d) ∷ es) u =
      let t = apply_one ops rt s (name, d) in
      let first = apply_one-Balanced_of s t name d u (apply_one-Applied ops rt s name d) in
      Balanced-trans first (apply_all-Balanced t es first.is_unique)

  -- The entries that the first loop has still to visit are those of the map.
  abbrev Pending : Dict (ActiveTunnel D H) → Pass D H → Type 0
  Pending es s =
      (k : Text) (a : ActiveTunnel D H) → lookup k es ≡ some a → lookup k s.active ≡ some a

  remove_all-Balanced :
      (desired : Dict D) (s : Pass D H) (es : Dict (ActiveTunnel D H))
      → Unique s.active
      → Unique es
      → Pending es s
      → Balanced f s (remove_all ops rt desired s es)
  unfolding remove_all
  remove_all-Balanced desired s [] u v p = Balanced-refl s u
  remove_all-Balanced desired s ((name, a) ∷ es) u (n, v) p =
      let t = remove_one ops rt desired s (name, a) in
      let first =
        remove_one-Balanced desired s name a u (p name a (unfold lookup in rw (equal_refl name))) in
      Balanced-trans first (
        remove_all-Balanced desired t es first.is_unique v (λ k b found.
          elim (Bool-cases (equal name k)) [
            | inl e ↦ absurd (cc (rw ((equal_iff name k).0 e) at n))
            | inr e ↦
                (remove_one-Same ops rt k desired s name a e).same_active
                ∙ p k b (unfold lookup in rw e found)
          ]))

  module _ (order : Order) where
    -- One pass loses no handle and stops none twice with success: for every weight of the handles, what
    -- was active and what the starter gave is what is active and what was stopped with success. The
    -- map of active tunnels stays a map.
    pub reconcile-Balanced :
        (active : Dict (ActiveTunnel D H)) (calls : ℕ) (log : List (Call D H)) (desired : List D)
        → Unique active
        → Balanced f
            (begin ops rt active calls log)
            (reconcile ops rt order active calls log desired)
    unfolding reconcile
    reconcile-Balanced active calls log desired u =
        let wanted = index ops [] desired in
        let first =
          remove_all-Balanced wanted (begin ops rt active calls log) (order.visit active) u
            (order.visit-Unique active u)
            (λ k a found. sym (order.lookup-visit active k u) ∙ found) in
        Balanced-trans first (apply_all-Balanced _ (order.visit wanted) first.is_unique)
