-- ===== src/Control/Runs.antt =====
-- client.go and tunnel.go: all that a control channel does from `Connect` on, in any order of its steps.
use rstream_go.Base.{ℕ, ◌+◌, Bool, true, none, ◌≡◌, refl, arith, ◌∙◌, ltb, bit, weight, option_rule}
use rstream_go.Cors.{Runes}
use rstream_go.Tunnel.{TunnelProperties}
use rstream_go.Control.{Control, run_cleanup}
use rstream_go.Control.Replies.{tally, replied, waiting, in_cleanup}
use rstream_go.Control.Tunnels.{open_at}
use rstream_go.Control.Proxy.{Item, ProxyState}
use rstream_go.Control.Proxy.Balance.{pending_at, unanswered, of_tunnel, load, load_responses}
use rstream_go.Control.Proxy.Held.{IsHeld}
use rstream_go.Control.Messages.{cleaning, act, Reach, here, next}
use rstream_go.Control.Connect.{connected}
use rstream_go.Control.Soundness.{IsSound, connected-IsSound, act-IsSound, Step-IsSound}

run_cleanup_closed :
    (c : Control) → ((run_cleanup c).cleanup ≡ none) × ((run_cleanup c).is_closed ≡ c.is_closed)
unfolding run_cleanup
run_cleanup_closed c =
    option_rule (λ (x : Control). (x.cleanup ≡ none) × (x.is_closed ≡ c.is_closed)) c.cleanup c _
      (λ h. (h, refl)) (λ k h. (refl, refl))

-- What a closed channel without a cleanup holds.
settled :
    (c : Control) (n : ℕ)
    → IsHeld c
    → c.is_closed ≡ true
    → c.cleanup ≡ none
    → (open_at n c.objects.store ≡ 0)
      × (replied n c.replies + tally n c.withdrawn ≡ bit (ltb n c.next_chan))
unfolding weight
settled c n h closed done =
    let (p, t) = h.owned.is_empty closed in
    (ground (arith, h.owned.owned n, t, done), ground (arith, h.tracked.tracked n, p, done))

module _ {runes : Runes} {fips : TunnelProperties → Bool} where
  Reach-IsSound : {p q : ProxyState} → Reach runes fips p q → IsSound p → IsSound q
  Reach-IsSound here v = v
  Reach-IsSound (next r s) v = Step-IsSound s (Reach-IsSound r v)

  -- Whatever a control channel has done since it was connected, each request for a tunnel that it sent is at
  -- exactly one place: it waits in the map, a detached cleanup is about to answer it, it was answered
  -- once, or its caller has withdrawn it. A channel that was not made is nowhere.
  pub request_once :
      (provider : Bool) (timeout : ℕ) {p : ProxyState}
      → Reach runes fips (connected provider timeout) p
      → (n : ℕ)
      → waiting n p.control.pending
          + in_cleanup n p.control.cleanup
          + replied n p.control.replies
          + tally n p.control.withdrawn
        ≡ bit (ltb n p.control.next_chan)
  request_once provider timeout r =
      (Reach-IsSound r (connected-IsSound provider timeout)).held.tracked.tracked

  -- Behind any run in which the control channel was closed, however it came to that, its cleanup leaves
  -- no tunnel open and no caller waiting: every tunnel ever opened is closed, and each request for one
  -- was answered or withdrawn.
  pub cleanup-finishes :
      (provider : Bool) (timeout : ℕ) (p : ProxyState)
      → Reach runes fips (connected provider timeout) p
      → p.control.is_closed ≡ true
      → (n : ℕ)
      → (open_at n (run_cleanup p.control).objects.store ≡ 0)
        × (replied n (run_cleanup p.control).replies + tally n (run_cleanup p.control).withdrawn
            ≡ bit (ltb n (run_cleanup p.control).next_chan))
  cleanup-finishes provider timeout p r h n =
      let v = act-IsSound cleaning p (Reach-IsSound r (connected-IsSound provider timeout)) in
      let (done, same) = run_cleanup_closed p.control in
      settled (run_cleanup p.control) n (unfold act in v.held) (same ∙ h) done

  -- Whatever a control channel has done since it was connected, every request for a proxy connection that it
  -- took in is answered once, is still on its way to an answer or was given up at the end of the
  -- channel, by any weight of the requests; and the counter of a tunnel, which its `Close` waits for, is
  -- the number of its requests without an answer.
  pub proxy_request_once :
      (provider : Bool) (timeout : ℕ) {p : ProxyState}
      → Reach runes fips (connected provider timeout) p
      → ((f : Item → ℕ) → load f p.asked ≡ load_responses f p.written + unanswered f p)
        × ((n : ℕ) → pending_at n p.control.objects.store ≡ unanswered (of_tunnel n) p)
  proxy_request_once provider timeout r =
      let b = (Reach-IsSound r (connected-IsSound provider timeout)).balanced in
      (b.answered, b.counted)
