-- ===== src/Run/Reconciler/Names.antt =====
-- The check of the names in `Reconcile`, and the map that `reconcile` builds from what it accepts.
use mathlib.Core.List.{Memᴰ}
use rstream_go.Base.{
  none, some, List, [], ◌∷◌, ◌≡◌, ◌≢◌, ◌↔◌, refl, ◌∙◌, arith, All, Text, equal_iff, equal_refl,
  Dict, lookup, insert, lookup-insert,
}
use rstream_go.Run.Reconciler.{DesiredOps, check_names, index}

module _ {D : Type 0} (ops : DesiredOps D) where
  abbrev pub Distinct : List D → Type 0
  Distinct [] = Unit
  Distinct (d ∷ ds) = All (λ e. ops.name d ≢ ops.name e) ds × Distinct ds

  -- Every tunnel has a name, and no two have the same.
  abbrev pub IsNamed : List D → Type 0
  IsNamed ds = All (λ d. ops.name d ≢ []) ds × Distinct ds

  abbrev Unseen : Dict (Unit {0}) → List D → Type 0
  Unseen seen = All (λ d. lookup (ops.name d) seen ≡ none)

  Unseen-insert :
      (n : Text) (seen : Dict (Unit {0})) (ds : List D)
      → All (λ e. n ≢ ops.name e) ds
      → Unseen seen ds
      → Unseen (insert n tt seen) ds
  Unseen-insert n seen [] a b = tt
  Unseen-insert n seen (d ∷ ds) (ne, a) (h, b) = (
    ground (arith, lookup-insert n (ops.name d) tt seen, equal_iff n (ops.name d)),
    Unseen-insert n seen ds a b,
  )

  Unseen-of_insert :
      (n : Text) (seen : Dict (Unit {0})) (ds : List D)
      → Unseen (insert n tt seen) ds
      → All (λ e. n ≢ ops.name e) ds × Unseen seen ds
  Unseen-of_insert n seen [] u = (tt, tt)
  Unseen-of_insert n seen (d ∷ ds) (h, u) =
      let (a, b) = Unseen-of_insert n seen ds u in
      (
        (λ e. ground (arith, lookup-insert n (ops.name d) tt seen, equal_iff n (ops.name d)), a),
        (ground (arith, lookup-insert n (ops.name d) tt seen), b),
      )

  check_names-accepts :
      (seen : Dict (Unit {0})) (ds : List D)
      → IsNamed ds
      → Unseen seen ds
      → check_names ops seen ds ≡ none
  unfolding check_names
  check_names-accepts seen [] h u = refl
  check_names-accepts seen (d ∷ ds) ((ne, nes), (a, b)) (n, u) = ground (
    arith,
    check_names-accepts (insert (ops.name d) tt seen) ds (nes, b)
        (Unseen-insert (ops.name d) seen ds a u),
  )

  check_names-cons :
      (seen : Dict (Unit {0})) (d : D) (ds : List D)
      → check_names ops seen (d ∷ ds) ≡ none
      → (ops.name d ≢ [])
        × (lookup (ops.name d) seen ≡ none)
        × (check_names ops (insert (ops.name d) tt seen) ds ≡ none)
  unfolding check_names
  check_names-cons seen d ds h = (λ e. ground arith, ground arith, ground arith)

  check_names_sound :
      (seen : Dict (Unit {0})) (ds : List D)
      → check_names ops seen ds ≡ none
      → IsNamed ds × Unseen seen ds
  check_names_sound seen [] h = ((tt, tt), tt)
  check_names_sound seen (d ∷ ds) h =
      let (ne, n, rest) = check_names-cons seen d ds h in
      let ((nes, b), u) = check_names_sound (insert (ops.name d) tt seen) ds rest in
      let (a, u') = Unseen-of_insert (ops.name d) seen ds u in (((ne, nes), (a, b)), (n, u'))

  index-other :
      (k : Text) (m : Dict D) (ds : List D)
      → All (λ e. k ≢ ops.name e) ds
      → lookup k (index ops m ds) ≡ lookup k m
  unfolding index
  index-other k m [] a = refl
  index-other k m (d ∷ ds) (ne, a) =
      index-other k (insert (ops.name d) d m) ds a
      ∙ ground (arith, lookup-insert (ops.name d) k d m, equal_iff (ops.name d) k)

  index-Memᴰ :
      (m : Dict D) (ds : List D) (d : D)
      → Distinct ds
      → Memᴰ d ds
      → lookup (ops.name d) (index ops m ds) ≡ some d
  unfolding index
  index-Memᴰ m [] d b i = elim i [ ]
  index-Memᴰ m (e ∷ ds) d (a, b) (Memᴰ.head p) = rw p (
      index-other (ops.name e) (insert (ops.name e) e m) ds a
      ∙ rw (lookup-insert (ops.name e) (ops.name e) e m, equal_refl (ops.name e)))
  index-Memᴰ m (e ∷ ds) d (a, b) (Memᴰ.tail i) = index-Memᴰ (insert (ops.name e) e m) ds d b i

  -- A request is accepted exactly when every tunnel has a name and no two have the same; the map built
  -- from an accepted request then has each of its tunnels under its name.
  pub check_names_iff :
      (ds : List D)
      → ((check_names ops [] ds ≡ none) ↔ IsNamed ds)
        × ((d : D)
            → check_names ops [] ds ≡ none
            → Memᴰ d ds
            → lookup (ops.name d) (index ops [] ds) ≡ some d)
  check_names_iff ds = (
    (λ h. (check_names_sound [] ds h).0, λ n. check_names-accepts [] ds n (none_seen ds)),
    λ d h i. index-Memᴰ [] ds d ((check_names_sound [] ds h).0.1) i,
  )
    where
      none_seen : (es : List D) → Unseen [] es
      none_seen [] = tt
      none_seen (e ∷ es) = (unfold lookup in refl, none_seen es)
