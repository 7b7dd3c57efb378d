-- ===== src/Run/Reconciler/Converge.antt =====
-- `reconcile` reaches the desired state, name by name: an error about one name leaves the others.
use rstream_go.Base.{
  ℕ, true, false, Option, none, some, List, [], ◌∷◌, ◌≡◌, inl, inr, refl, ◌∙◌, arith, Bool-cases,
  Option-cases, Text, equal, equal_iff, Dict, lookup, insert, Unique, Unique-insert,
}
use rstream_go.Run.Reconciler.{
  DesiredOps, Runtime, Call, ActiveTunnel, Pass, Order, remove_one, apply_one, remove_all,
  apply_all, index, begin, reconcile,
}
use rstream_go.Run.Reconciler.Step.{
  Settled, Same, remove_one-Same, remove_one-wanted, remove_one-Settled, apply_one-Same,
  apply_one-Settled,
}

module _ {D H : Type 0} (ops : DesiredOps D) (rt : Runtime D H) (k : Text) where
  Same-refl : (s : Pass D H) → Same ops rt k s s
  Same-refl s = record { same_active = refl; same_errors = refl }

  Same-trans : {s t u : Pass D H} → Same ops rt k s t → Same ops rt k t u → Same ops rt k s u
  Same-trans a b = record {
    same_active = b.same_active ∙ a.same_active;
    same_errors = b.same_errors ∙ a.same_errors;
  }

  Settled-Same :
      (wanted : Option D) (before : Option (ActiveTunnel D H)) {s t : Pass D H}
      → Settled ops rt k wanted before s
      → Same ops rt k s t
      → Settled ops rt k wanted before t
  Settled-Same none before (inl h) e = inl (e.same_active ∙ h)
  Settled-Same (some d) before (inl (a, h, q)) e = inl (a, e.same_active ∙ h, q)
  Settled-Same none before (inr (n, inl h)) e = inr (e.same_errors ∙ n, inl (e.same_active ∙ h))
  Settled-Same none before (inr (n, inr h)) e = inr (e.same_errors ∙ n, inr (e.same_active ∙ h))
  Settled-Same (some d) before (inr (n, inl h)) e = inr (e.same_errors ∙ n, inl (e.same_active ∙ h))
  Settled-Same (some d) before (inr (n, inr h)) e = inr (e.same_errors ∙ n, inr (e.same_active ∙ h))

  lookup-tail :
      {V : Type 0} (name : Text) (v : V) (m : Dict V)
      → equal name k ≡ false
      → lookup k ((name, v) ∷ m) ≡ lookup k m
  unfolding lookup
  lookup-tail name v m e = rw e

  head-eq :
      {V : Type 0} (name : Text) (v : V) (m : Dict V) {w : V}
      → equal name k ≡ true
      → lookup k ((name, v) ∷ m) ≡ some w
      → v ≡ w
  unfolding lookup
  head-eq name v m e h = ground arith

  remove_all-wanted :
      (desired : Dict D) (s : Pass D H) (es : Dict (ActiveTunnel D H)) {d : D}
      → lookup k desired ≡ some d
      → Same ops rt k s (remove_all ops rt desired s es)
  unfolding remove_all
  remove_all-wanted desired s [] h = Same-refl s
  remove_all-wanted desired s ((name, a) ∷ es) h =
      Same-trans (remove_one-wanted ops rt k desired s name a h)
        (remove_all-wanted desired (remove_one ops rt desired s (name, a)) es h)

  remove_all-absent :
      (desired : Dict D) (s : Pass D H) (es : Dict (ActiveTunnel D H))
      → lookup k es ≡ none
      → Same ops rt k s (remove_all ops rt desired s es)
  unfolding remove_all
  remove_all-absent desired s [] h = Same-refl s
  remove_all-absent desired s ((name, a) ∷ es) h = elim (Bool-cases (equal name k)) [
    | inl e ↦ absurd (unfold lookup in ground arith)
    | inr e ↦ Same-trans (remove_one-Same ops rt k desired s name a e) (
        remove_all-absent desired (remove_one ops rt desired s (name, a)) es
          (rw (lookup-tail name a es e) at h))
  ]

  remove_all-Settled :
      (desired : Dict D) (s : Pass D H) (es : Dict (ActiveTunnel D H)) {a : ActiveTunnel D H}
      → lookup k desired ≡ none
      → Unique es
      → lookup k es ≡ some a
      → Settled ops rt k none (lookup k s.active) (remove_all ops rt desired s es)
  unfolding remove_all
  remove_all-Settled desired s [] h u f = absurd (unfold lookup in cc)
  remove_all-Settled desired s ((name, b) ∷ es) h (n, u) f = elim (Bool-cases (equal name k)) [
    | inl e ↦
        let first = remove_one-Settled ops rt k desired s name b h e in
        Settled-Same none (lookup k s.active) first
          (remove_all-absent desired _ es (rw ((equal_iff name k).0 e) at n))
    | inr e ↦
        let skip = remove_one-Same ops rt k desired s name b e in
        rw (← skip.same_active) (
          remove_all-Settled desired (remove_one ops rt desired s (name, b)) es h u
            (rw (lookup-tail name b es e) at f))
  ]

  apply_all-absent :
      (s : Pass D H) (es : Dict D) → lookup k es ≡ none → Same ops rt k s (apply_all ops rt s es)
  unfolding apply_all
  apply_all-absent s [] h = Same-refl s
  apply_all-absent s ((name, d) ∷ es) h = elim (Bool-cases (equal name k)) [
    | inl e ↦ absurd (unfold lookup in ground arith)
    | inr e ↦
        Same-trans (apply_one-Same ops rt k s name d e)
          (apply_all-absent (apply_one ops rt s (name, d)) es (rw (lookup-tail name d es e) at h))
  ]

  apply_all-Settled :
      (s : Pass D H) (es : Dict D) {d : D}
      → Unique es
      → lookup k es ≡ some d
      → Settled ops rt k (some d) (lookup k s.active) (apply_all ops rt s es)
  unfolding apply_all
  apply_all-Settled s [] u f = absurd (unfold lookup in cc)
  apply_all-Settled s ((name, d') ∷ es) {d} (n, u) f = elim (Bool-cases (equal name k)) [
    | inl e ↦
        let same : d' ≡ d = head-eq name d' es e f in
        rw (← same) (
          Settled-Same (some d') (lookup k s.active) (apply_one-Settled ops rt k s name d' e) (
            apply_all-absent (apply_one ops rt s (name, d')) es (rw ((equal_iff name k).0 e) at n)))
    | inr e ↦
        let skip = apply_one-Same ops rt k s name d' e in
        rw (← skip.same_active) (
          apply_all-Settled (apply_one ops rt s (name, d')) es u
            (rw (lookup-tail name d' es e) at f))
  ]

index-Unique :
    {D : Type 0} (ops : DesiredOps D) (m : Dict D) (ds : List D)
    → Unique m
    → Unique (index ops m ds)
unfolding index
index-Unique ops m [] u = u
index-Unique ops m (d ∷ ds) u =
    index-Unique ops (insert (ops.name d) d m) ds (Unique-insert (ops.name d) d m u)

module _ {D H : Type 0} (ops : DesiredOps D) (rt : Runtime D H) (order : Order) where
  -- After a pass over a map of active tunnels, in any order of the maps: for every name the active
  -- tunnel is equal to the desired one, or there is none where none is desired; or the joined error
  -- names it, and then it has the tunnel it had or none.
  pub reconcile-Settled :
      (active : Dict (ActiveTunnel D H)) (calls : ℕ) (log : List (Call D H)) (desired : List D)
      (k : Text)
      → Unique active
      → Settled ops rt k
          (lookup k (index ops [] desired))
          (lookup k active)
          (reconcile ops rt order active calls log desired)
  unfolding reconcile
  reconcile-Settled active calls log desired k u =
      let wanted = index ops [] desired in
      let first = begin ops rt active calls log in
      let second = remove_all ops rt wanted first (order.visit active) in
      let uw : Unique wanted = index-Unique ops [] desired tt in
      elim (Option-cases (lookup k wanted)) [
        | inl gone ↦
            let skip =
              apply_all-absent ops rt k second (order.visit wanted)
                (order.lookup-visit wanted k uw ∙ gone) in
            rw gone (elim (Option-cases (lookup k active)) [
              | inl none_before ↦
                  let skip_first =
                    remove_all-absent ops rt k wanted first (order.visit active)
                      (order.lookup-visit active k u ∙ none_before) in
                  inl ((Same-trans ops rt k skip_first skip).same_active ∙ none_before)
              | inr (a, found) ↦
                  Settled-Same ops rt k none (lookup k active)
                    (remove_all-Settled ops rt k wanted first (order.visit active) gone
                      (order.visit-Unique active u) (order.lookup-visit active k u ∙ found))
                    skip
            ])
        | inr (d, found) ↦
            let skip = remove_all-wanted ops rt k wanted first (order.visit active) found in
            rw (found, ← skip.same_active)
              (apply_all-Settled ops rt k second (order.visit wanted) (order.visit-Unique wanted uw)
                (order.lookup-visit wanted k uw ∙ found))
      ]
