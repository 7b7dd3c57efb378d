-- ===== src/Session/Closing.antt =====
-- cmd/rstream/internal/sessiongroup/group.go: where the closers are that were handed to a group.
use rstream_go.Base.{
  ℕ, ◌+◌, ◌%◌, ◌^◌, ◌≤◌, ◌<◌, ◌≡◌, Bool, true, false, List, [], ◌∷◌, ◌++◌, refl, sym, ap, ◌∙◌,
  arith, ◌==◌, ==_iff, inl, inr, Bool-cases, length, is_nil, bit, if◌then◌else◌, if_rule, list_rule,
  All, All-append, All-map, put, drop_key, put_fresh, KeysBelow,
}
use mathlib.Core.Path.{subst}
use rstream_go.Session.{
  Group, new_group, start, leave, finish, closers, close, close_next, Action, starting, finishing,
  closing, closing_next, act, run_actions, handed,
}

abbrev pub times : ℕ → List ℕ → ℕ
times c [] = 0
times c (d ∷ ds) = bit (d == c) + times c ds

-- The identifiers rise.
abbrev Rising : List (ℕ × ℕ) → Type 0
Rising [] = Unit
Rising ((i, _) ∷ m) = All (λ e. i < e.0) m × Rising m

-- The group holds every session once, and `h` closers `c` were handed over.
record IsCounted (c h : ℕ) (g : Group) : Type 0 where
  same : g.active ≡ g.running
  below : KeysBelow (g.next_id + 1) g.running
  rising : Rising g.running
  all : h ≡ times c g.refused + times c (closers g.running) + times c g.ended
  covered :
      h
      ≤ times c g.refused
        + times c g.closings
        + times c g.ended
        + (if g.is_closed then times c g.to_close else times c (closers g.running))
  early : g.is_closed ≡ false → g.to_close ≡ []
  once :
      times c g.refused
        + times c g.closings
        + (if g.is_closed
            then times c g.to_close
            else times c (closers g.running) + times c g.ended)
      ≤ h

times-append : (c : ℕ) (xs ys : List ℕ) → times c (xs ++ ys) ≡ times c xs + times c ys
times-append c [] ys = omega arith
times-append c (x ∷ xs) ys = omega (arith, times-append c xs ys)

closers-append :
    (c i d : ℕ) (m : List (ℕ × ℕ))
    → times c (closers (m ++ ((i, d) ∷ []))) ≡ times c (closers m) + bit (d == c)
closers-append c i d [] = omega arith
closers-append c i d (e ∷ m) = omega (arith, closers-append c i d m)

Rising-append :
    (k d : ℕ) (m : List (ℕ × ℕ)) → KeysBelow k m → Rising m → Rising (m ++ ((k, d) ∷ []))
Rising-append k d [] b r = (tt, tt)
Rising-append k d ((i, _) ∷ m) (lt, b) (a, r) =
    (All-append (λ (e : ℕ × ℕ). i < e.0) m ((k, d) ∷ []) a (lt, tt), Rising-append k d m b r)

times-leave :
    (c id : ℕ) (m : List (ℕ × ℕ))
    → times c (leave id m).0 + times c (closers (leave id m).1) ≡ times c (closers m)
unfolding leave
times-leave c id [] = refl
times-leave c id ((i, d) ∷ m) = ground (arith, times-leave c id m)

All-leave : (P : ℕ × ℕ → Type 0) (id : ℕ) (m : List (ℕ × ℕ)) → All P m → All P (leave id m).1
unfolding leave
All-leave P id [] h = tt
All-leave P id ((i, d) ∷ m) (p, h) =
    if_rule (λ (x : List ℕ × List (ℕ × ℕ)). All P x.1) (i == id) _ _ (λ _. h)
      (λ _. (p, All-leave P id m h))

Rising-leave : (id : ℕ) (m : List (ℕ × ℕ)) → Rising m → Rising (leave id m).1
unfolding leave
Rising-leave id [] r = tt
Rising-leave id ((i, d) ∷ m) (a, r) =
    if_rule (λ (x : List ℕ × List (ℕ × ℕ)). Rising x.1) (i == id) _ _ (λ _. r)
      (λ _. (All-leave (λ e. i < e.0) id m a, Rising-leave id m r))

drop_key-above : (k : ℕ) (m : List (ℕ × ℕ)) → All (λ e. k < e.0) m → drop_key k m ≡ m
unfolding drop_key
drop_key-above k [] h = refl
drop_key-above k ((i, d) ∷ m) (lt, h) = ground (arith, lt, drop_key-above k m h)

-- Deleting a key is what its goroutine's leaving does.
drop_key-leave : (k : ℕ) (m : List (ℕ × ℕ)) → Rising m → drop_key k m ≡ (leave k m).1
unfolding drop_key leave
drop_key-leave k [] r = refl
drop_key-leave k ((i, d) ∷ m) (a, r) =
    let same : i ≡ k → drop_key k m ≡ m =
      λ e. drop_key-above k m (subst (λ j. All (λ e. j < e.0) m) e a) in
    ground (arith, same, ==_iff i k, drop_key-leave k m r)

-- A group that is made of other lists is counted when these are.
start-IsCounted :
    (c h d : ℕ) (g : Group) (r : IsCounted c h g)
    → g.next_id + 1 < 2 ^ 64
    → IsCounted c (bit (d == c) + h) (start d g).0
unfolding start
start-IsCounted c h d g r lt =
    let small : (g.next_id + 1) % 2 ^ 64 ≡ g.next_id + 1 = omega (arith, lt) in
    if_rule (λ (x : Group × Bool). IsCounted c (bit (d == c) + h) x.0) g.is_closed _ _
      (λ e. record {
        same = r.same;
        below = r.below;
        rising = r.rising;
        all = omega (arith, r.all);
        covered = omega (arith, r.covered);
        early = r.early;
        once = omega (arith, r.once);
      })
      (λ e. record {
        same =
            subst (λ k. put k d g.active ≡ g.running ++ ((k, d) ∷ [])) (sym small)
              (ap (put (g.next_id + 1) d) r.same ∙ put_fresh (g.next_id + 1) d g.running r.below);
        below =
            subst (λ k. KeysBelow (k + 1) (g.running ++ ((k, d) ∷ []))) (sym small)
              (All-append (λ (x : ℕ × ℕ). x.0 < g.next_id + 1 + 1) g.running _
                (All-map _ (λ x p. omega (arith, p)) g.running r.below) (omega arith, tt));
        rising =
            subst (λ k. Rising (g.running ++ ((k, d) ∷ []))) (sym small)
              (Rising-append (g.next_id + 1) d g.running r.below r.rising);
        all = omega (arith, r.all, closers-append c ((g.next_id + 1) % 2 ^ 64) d g.running);
        covered =
            ground (arith, e, r.covered, closers-append c ((g.next_id + 1) % 2 ^ 64) d g.running);
        early = r.early;
        once = ground (arith, e, r.once, closers-append c ((g.next_id + 1) % 2 ^ 64) d g.running);
      })

finish-IsCounted : (c h id : ℕ) (g : Group) → IsCounted c h g → IsCounted c h (finish id g)
unfolding finish
finish-IsCounted c h id g r =
    let gone = (leave id g.running).0 in
    let moved = times-leave c id g.running in
    if_rule (IsCounted c h) (is_nil (leave id g.running).0) _ _ (λ _. r)
      (λ _. record {
        same = ap (drop_key id) r.same ∙ drop_key-leave id g.running r.rising;
        below = All-leave (λ e. e.0 < g.next_id + 1) id g.running r.below;
        rising = Rising-leave id g.running r.rising;
        all = grind (arith, r.all, moved, times-append c gone g.ended);
        covered = ground (arith, r.covered, moved, times-append c gone g.ended);
        early = r.early;
        once = ground (arith, r.once, moved, times-append c gone g.ended);
      })

close-IsCounted : (c h : ℕ) (g : Group) → IsCounted c h g → IsCounted c h (close g)
unfolding close
close-IsCounted c h g r =
    if_rule (IsCounted c h) g.is_closed _ _ (λ _. r)
      (λ e. record {
        same = r.same;
        below = r.below;
        rising = r.rising;
        all = r.all;
        covered = ground (arith, e, r.covered, ap closers r.same);
        early = λ e. absurd (cc);
        once = ground (arith, e, r.once, ap closers r.same);
      })

close_next-IsCounted : (c h : ℕ) (g : Group) → IsCounted c h g → IsCounted c h (close_next g)
unfolding close_next
close_next-IsCounted c h g r =
    let listed : g.is_closed ≡ false → (d : ℕ) → (ds : List ℕ) → g.to_close ≡ d ∷ ds → ⊥ =
      λ o d ds e. omega (arith, sym (ap length e) ∙ ap length (r.early o)) in
    let closed : (d : ℕ) → (ds : List ℕ) → g.to_close ≡ d ∷ ds → g.is_closed ≡ true =
      λ d ds e. elim (Bool-cases g.is_closed) [ inl t ↦ t | inr o ↦ absurd (listed o d ds e) ] in
    list_rule (IsCounted c h) g.to_close _ _ (λ _. r)
      (λ d ds e. record {
        same = r.same;
        below = r.below;
        rising = r.rising;
        all = r.all;
        covered = ground (arith, r.covered, ap (times c) e);
        early = λ o. absurd (listed o d ds e);
        once = ground (arith, r.once, ap (times c) e, closed d ds e);
      })

-- The sessions that a run of actions asks for.
abbrev starts : List Action → ℕ
starts actions = length (handed actions)

start-next_id : (d : ℕ) (g : Group) → (start d g).0.next_id ≤ g.next_id + 1
unfolding start
start-next_id d g = ground arith

finish-next_id : (id : ℕ) (g : Group) → (finish id g).next_id ≡ g.next_id
unfolding finish
finish-next_id id g = ground arith

close-next_id : (g : Group) → (close g).next_id ≡ g.next_id
unfolding close
close-next_id g = ground arith

close_next-next_id : (g : Group) → (close_next g).next_id ≡ g.next_id
unfolding close_next
close_next-next_id g = ground arith

run_actions-IsCounted :
    (c : ℕ) (actions : List Action) (h : ℕ) (g : Group)
    → IsCounted c h g
    → g.next_id + starts actions < 2 ^ 64
    → IsCounted c (h + times c (handed actions)) (run_actions actions g)
unfolding run_actions act
run_actions-IsCounted c [] h g r lt = subst (λ n. IsCounted c n g) (omega arith) r
run_actions-IsCounted c (starting d ∷ actions) h g r lt =
    subst (λ n. IsCounted c n (run_actions actions (start d g).0)) (omega arith)
      (run_actions-IsCounted c actions (bit (d == c) + h) (start d g).0
        (start-IsCounted c h d g r (omega (arith, lt))) (omega (arith, lt, start-next_id d g)))
run_actions-IsCounted c (finishing id ∷ actions) h g r lt =
    run_actions-IsCounted c actions h (finish id g) (finish-IsCounted c h id g r)
      (omega (arith, lt, finish-next_id id g))
run_actions-IsCounted c (closing ∷ actions) h g r lt =
    run_actions-IsCounted c actions h (close g) (close-IsCounted c h g r)
      (omega (arith, lt, close-next_id g))
run_actions-IsCounted c (closing_next ∷ actions) h g r lt =
    run_actions-IsCounted c actions h (close_next g) (close_next-IsCounted c h g r)
      (omega (arith, lt, close_next-next_id g))

new_group-IsCounted : (c : ℕ) → IsCounted c 0 new_group
unfolding new_group
new_group-IsCounted c = record {
  same = refl;
  below = tt;
  rising = tt;
  all = refl;
  covered = omega arith;
  early = λ _. refl;
  once = omega arith;
}

-- After any run from a new group that asks for fewer than 2^64 sessions, if the group is closed and `Close` has
-- closed all its copies: a closer was handed over as often as it was refused and closed at once, belongs to
-- a session that runs, or to one that has ended; as often at most as it was refused, closed by `Close`,
-- or its session has ended; and it was not closed more often than it was handed over.
pub run_actions-handed :
    (actions : List Action) (c : ℕ)
    → length (handed actions) < 2 ^ 64
    → (run_actions actions new_group).is_closed ≡ true
    → (run_actions actions new_group).to_close ≡ []
    → let g = run_actions actions new_group in
      (times c (handed actions) ≡ times c g.refused + times c (closers g.running) + times c g.ended)
      × (times c (handed actions) ≤ times c g.refused + times c g.closings + times c g.ended)
      × (times c g.refused + times c g.closings ≤ times c (handed actions))
unfolding new_group
run_actions-handed actions c lt closed none =
    let r =
      run_actions-IsCounted c actions 0 new_group (new_group-IsCounted c) (omega (arith, lt)) in
    (
      omega (arith, r.all),
      ground (arith, closed, ap (times c) none, r.covered),
      ground (arith, closed, ap (times c) none, r.once),
    )
