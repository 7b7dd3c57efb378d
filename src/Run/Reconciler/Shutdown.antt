-- ===== src/Run/Reconciler/Shutdown.antt =====
-- The life of the reconciler: `run` over any requests, and the deferred `stop`.
use rstream_go.Base.{
  ℕ, ◌+◌, none, List, [], ◌∷◌, ◌++◌, append_assoc, ◌≡◌, refl, ◌∙◌, sym, arith, if◌then◌else◌,
  is_some, Text, Dict, lookup, delete, Unique, weight, weight-eq, lookup-delete, lookup-cons,
  nil_of_lookup,
}
use rstream_go.Run.Reconciler.{
  DesiredOps, Runtime, Call, stop_call, start_call, ActiveTunnel, Pass, Order, Request,
  reconcile_request, stop_request, begin, reconcile, stop_each, stop, run_from, run,
}
use rstream_go.Run.Reconciler.Handles.{started, stopped, live, reconcile-Balanced}

module _ {D H : Type 0} (f : H → ℕ) where
  -- The weight of the handles on which `Stop` is called, with or without success.
  abbrev pub called : List (Call D H) → ℕ
  called [] = 0
  called (stop_call h _ ∷ log) = f h + called log
  called (start_call _ _ ∷ log) = called log

  called-append : (xs ys : List (Call D H)) → called (xs ++ ys) ≡ called xs + called ys
  called-append [] ys = omega arith
  called-append (stop_call h b ∷ xs) ys = omega (arith, called-append xs ys)
  called-append (start_call d a ∷ xs) ys = called-append xs ys

module _ {D H : Type 0} (ops : DesiredOps D) (rt : Runtime D H) (f : H → ℕ) (order : Order) where
  -- The deferred calls, and what they leave.
  pub record Shut (s t : Pass D H) (es : Dict (ActiveTunnel D H)) : Type 0 where
    pub exit : List (Call D H)
    pub log_is : t.log ≡ exit ++ s.log
    pub called_is : called f exit ≡ live f es
    pub started_is : started f t.log ≡ started f s.log

  stop_each-Shut :
      (s : Pass D H) (es : Dict (ActiveTunnel D H)) → Shut s (stop_each ops rt order s es) es
  unfolding stop_each weight
  stop_each-Shut s [] = record { exit = []; log_is = refl; called_is = refl; started_is = refl }
  stop_each-Shut s ((name, a) ∷ es) =
      let ok = rt.stop s.calls a.handle_of in
      let t = record s {
        calls = s.calls + 1;
        log = stop_call a.handle_of ok ∷ s.log;
        active = delete name s.active;
      } in
      let ih = stop_each-Shut t es in
      record {
        exit = ih.exit ++ stop_call a.handle_of ok ∷ [];
        log_is = ih.log_is ∙ sym (append_assoc ih.exit (stop_call a.handle_of ok ∷ []) s.log);
        called_is =
            omega (arith, ih.called_is, called-append f ih.exit (stop_call a.handle_of ok ∷ []));
        started_is = ih.started_is;
      }

  stop_each-deletes :
      (s : Pass D H) (es : Dict (ActiveTunnel D H)) (k : Text)
      → lookup k (stop_each ops rt order s es).active
        ≡ (if is_some (lookup k es) then none else lookup k s.active)
  unfolding stop_each
  stop_each-deletes s [] k = unfold lookup in refl
  stop_each-deletes s ((name, a) ∷ es) k =
      let t = record s {
        calls = s.calls + 1;
        log = stop_call a.handle_of (rt.stop s.calls a.handle_of) ∷ s.log;
        active = delete name s.active;
      } in
      stop_each-deletes t es k
      ∙ ground (arith, lookup-delete name k s.active, lookup-cons k name a es)

  live-visit : (m : Dict (ActiveTunnel D H)) → Unique m → live f (order.visit m) ≡ live f m
  live-visit m u =
      weight-eq (λ a. f a.handle_of) (order.visit m) m (order.visit-Unique m u) u
        (λ k. order.lookup-visit m k u)

  -- `stop` empties the map and calls `Stop` on every handle that was active.
  pub stop-Shut :
      (s : Pass D H)
      → Unique s.active
      → Shut s (stop ops rt order s) s.active × ((stop ops rt order s).active ≡ [])
  unfolding stop
  stop-Shut s u =
      let shut = stop_each-Shut s (order.visit s.active) in
      (
        record {
          exit = shut.exit;
          log_is = shut.log_is;
          called_is = shut.called_is ∙ live-visit s.active u;
          started_is = shut.started_is;
        },
        nil_of_lookup _ (λ k.
            ground (
              arith,
              stop_each-deletes s (order.visit s.active) k,
              order.lookup-visit s.active k u,
            )),
      )

  -- What the log of a finished run says: the deferred calls are on top of it, nothing is active, and
  -- every handle that the starter gave was stopped with success before, or is among the deferred calls.
  pub record Accounted (t : Pass D H) : Type 0 where
    pub exit : List (Call D H)
    pub before : List (Call D H)
    pub log_splits : t.log ≡ exit ++ before
    pub accounts : started f t.log ≡ stopped f before + called f exit
    pub empty : t.active ≡ []

  stop-Accounted :
      (s : Pass D H)
      → Unique s.active
      → live f s.active + stopped f s.log ≡ started f s.log
      → Accounted (stop ops rt order s)
  stop-Accounted s u b =
      let (shut, cleared) = stop-Shut s u in
      record {
        exit = shut.exit;
        before = s.log;
        log_splits = shut.log_is;
        accounts = omega (arith, shut.started_is, shut.called_is, b);
        empty = cleared;
      }

  run_from-Accounted :
      (s : Pass D H) (rs : List (Request D))
      → Unique s.active
      → live f s.active + stopped f s.log ≡ started f s.log
      → Accounted (run_from ops rt order s rs)
  unfolding run_from
  run_from-Accounted s [] u b = stop-Accounted s u b
  run_from-Accounted s (stop_request ∷ rs) u b = stop-Accounted s u b
  run_from-Accounted s (reconcile_request desired ∷ rs) u b =
      let pass = reconcile-Balanced ops rt f order s.active s.calls s.log desired u in
      run_from-Accounted (reconcile ops rt order s.active s.calls s.log desired) rs pass.is_unique
        (omega (arith, pass.balance))

  -- However the run ends, and whatever the starter and the handles answer: nothing is active
  -- at its end, and every handle that the starter gave was stopped with success in some pass or had
  -- its `Stop` called at the end, each once (for every weight of the handles).
  pub run-Accounted : (rs : List (Request D)) → Accounted (run ops rt order rs)
  unfolding run weight
  run-Accounted rs = run_from-Accounted (begin ops rt [] 0 []) rs tt refl
