-- ===== src/Control/Replies.antt =====
-- client.go: the response channels of `CreateTunnel`: none is lost, none is answered twice.
use rstream_go.Base.{
  ℕ, ◌+◌, Bool, false, not, ◌||◌, Option, none, some, List, [], ◌∷◌, ◌++◌, ◌≡◌, ◌⊎◌, refl, arith,
  inl, inr, sym, ◌∙◌, map, ◌==◌, ltb, bit, Bool-cases, if_rule, option_rule, Text, Dict, lookup,
  insert, delete, Unique, Unique-insert, Unique-delete, weight, weight-insert, weight-delete,
}
use rstream_go.Cors.{Runes}
use rstream_go.Tunnel.{TunnelProperties, Normal, Refusal, accepted, refused, normalize_create}
use rstream_go.Control.{
  Reply, hung_up, Cleanup, Control, entries, detach_cleanup, run_cleanup, request_tunnel, withdraw,
  OpenRsp, engine_error, properties, unexpected, open_from_properties, open_result, handle_open_rsp,
  handle_close_rsp, begin_close, begin_close_tunnel,
}

abbrev pub tally : ℕ → List ℕ → ℕ
tally n [] = 0
tally n (m ∷ ms) = bit (m == n) + tally n ms

abbrev pub replied : ℕ → List (ℕ × Reply) → ℕ
replied n [] = 0
replied n ((m, _) ∷ rs) = bit (m == n) + replied n rs

-- The pending requests that a detached cleanup is about to answer.
abbrev pub in_cleanup : ℕ → Option Cleanup → ℕ
in_cleanup n none = 0
in_cleanup n (some k) = tally n k.pending

abbrev pub waiting : ℕ → Dict ℕ → ℕ
waiting n = weight (λ m. bit (m == n))

-- Each response channel that was made is at one place.
pub record IsTracked (c : Control) : Type 0 where
  pub is_unique : Unique c.pending
  pub tracked :
      (n : ℕ)
      → waiting n c.pending + in_cleanup n c.cleanup + replied n c.replies + tally n c.withdrawn
        ≡ bit (ltb n c.next_chan)
  pub no_cleanup : c.is_closed ≡ false → c.cleanup ≡ none

-- `c` and `d` agree on all that concerns response channels.
pub record Same (c d : Control) : Type 0 where
  pub pending_eq : d.pending ≡ c.pending
  pub cleanup_eq : d.cleanup ≡ c.cleanup
  pub replies_eq : d.replies ≡ c.replies
  pub withdrawn_eq : d.withdrawn ≡ c.withdrawn
  pub next_eq : d.next_chan ≡ c.next_chan
  pub closed_eq : d.is_closed ≡ c.is_closed

pub tally-entries : (n : ℕ) (m : Dict ℕ) → tally n (entries m) ≡ waiting n m
unfolding weight
tally-entries n [] = refl
tally-entries n ((k, v) ∷ m) = omega (arith, tally-entries n m)

replied-hung_up :
    (n : ℕ) (ms : List ℕ) (rs : List (ℕ × Reply))
    → replied n (map (λ m. (m, hung_up)) ms ++ rs) ≡ tally n ms + replied n rs
replied-hung_up n [] rs = omega arith
replied-hung_up n (m ∷ ms) rs = omega (arith, replied-hung_up n ms rs)

Same-IsTracked : (c d : Control) → Same c d → IsTracked c → IsTracked d
Same-IsTracked c d s t = record {
  is_unique = rw s.pending_eq t.is_unique;
  tracked =
      λ n. rw (s.pending_eq, s.cleanup_eq, s.replies_eq, s.withdrawn_eq, s.next_eq) (t.tracked n);
  no_cleanup = λ h. s.cleanup_eq ∙ t.no_cleanup (sym s.closed_eq ∙ h);
}

-- A new request under a new identifier.
enqueue-IsTracked :
    (id : Text) (c : Control)
    → lookup id c.pending ≡ none
    → IsTracked c
    → IsTracked
        (record c { pending = insert id c.next_chan c.pending; next_chan = c.next_chan + 1 })
enqueue-IsTracked id c free t = record {
  is_unique = Unique-insert id c.next_chan c.pending t.is_unique;
  tracked = λ n.
      let w = weight-insert (λ m. bit (m == n)) id c.next_chan c.pending free in
      ground (arith, t.tracked n, w);
  no_cleanup = t.no_cleanup;
}

pub Normal-cases :
    (r : Normal) → ((p : TunnelProperties) × (r ≡ accepted p)) ⊎ ((x : Refusal) × (r ≡ refused x))
Normal-cases (accepted p) = inl (p, refl)
Normal-cases (refused x) = inr (x, refl)

pub request_tunnel-IsTracked :
    (runes : Runes) (fips : TunnelProperties → Bool) (id : Text) (props : TunnelProperties)
    (c : Control)
    → lookup id c.pending ≡ none
    → IsTracked c
    → IsTracked (request_tunnel runes fips id props c).0
unfolding request_tunnel
request_tunnel-IsTracked runes fips id props c free t =
    elim (Bool-cases (not (fips props) || c.is_closed || c.is_closing)) [
      | inl e ↦ rw e t
      | inr e ↦ elim (Normal-cases (normalize_create runes props)) [
        | inl (p, q) ↦ rw (e, q) (enqueue-IsTracked id c free t)
        | inr (x, q) ↦ rw (e, q) t
      ]
    ]

pub withdraw-IsTracked :
    (id : Text) (chan : ℕ) (c : Control) → IsTracked c → IsTracked (withdraw id chan c)
unfolding withdraw
withdraw-IsTracked id chan c t =
    option_rule IsTracked (lookup id c.pending) c _ (λ _. t)
      (λ m e.
        if_rule IsTracked (m == chan) _ c
          (λ q. record {
            is_unique = Unique-delete id c.pending t.is_unique;
            tracked = λ n.
                let w = weight-delete (λ k. bit (k == n)) id c.pending t.is_unique in
                ground (arith, t.tracked n, w, e, q);
            no_cleanup = t.no_cleanup;
          })
          (λ _. t))

open_result-Same : (p : OpenRsp) (c : Control) → Same c (open_result p c).0
unfolding open_result open_from_properties
open_result-Same (engine_error e) c = ground arith
open_result-Same (properties p) c = ground arith
open_result-Same unexpected c = ground arith

-- The reply to a request that was taken off the map.
reply-IsTracked :
    (id : Text) (chan : ℕ) (reply : Reply) (c d : Control)
    → lookup id c.pending ≡ some chan
    → Same (record c { pending = delete id c.pending }) d
    → IsTracked c
    → IsTracked (record d { replies = (chan, reply) ∷ d.replies })
reply-IsTracked id chan reply c d e s t = record {
  is_unique = rw s.pending_eq (Unique-delete id c.pending t.is_unique);
  tracked = λ n.
      let w = weight-delete (λ k. bit (k == n)) id c.pending t.is_unique in
      rw (s.pending_eq, s.cleanup_eq, s.replies_eq, s.withdrawn_eq, s.next_eq)
        (ground (arith, t.tracked n, w, e));
  no_cleanup = λ h. s.cleanup_eq ∙ t.no_cleanup (sym s.closed_eq ∙ h);
}

pub handle_open_rsp-IsTracked :
    (id : Text) (p : OpenRsp) (c : Control) → IsTracked c → IsTracked (handle_open_rsp id p c)
unfolding handle_open_rsp
handle_open_rsp-IsTracked id p c t =
    option_rule IsTracked (lookup id c.pending) c _ (λ _. t)
      (λ chan e.
        reply-IsTracked id chan _ c _ e
          (open_result-Same p (record c { pending = delete id c.pending })) t)

pub detach_cleanup-IsTracked :
    (e : Option Text) (c : Control) → IsTracked c → IsTracked (detach_cleanup e c)
unfolding detach_cleanup
detach_cleanup-IsTracked e c t =
    if_rule IsTracked c.is_closed c _ (λ _. t)
      (λ h. record {
        is_unique = tt;
        tracked = λ n.
            unfold weight in ground (arith, t.tracked n, t.no_cleanup h, tally-entries n c.pending);
        no_cleanup = λ k. absurd (ground (arith, k));
      })

pub run_cleanup-IsTracked : (c : Control) → IsTracked c → IsTracked (run_cleanup c)
unfolding run_cleanup
run_cleanup-IsTracked c t =
    option_rule IsTracked c.cleanup c _ (λ _. t)
      (λ k e. record {
        is_unique = t.is_unique;
        tracked = λ n. ground (arith, t.tracked n, e, replied-hung_up n k.pending c.replies);
        no_cleanup = λ _. refl;
      })

pub handle_close_rsp-IsTracked :
    (id : Text) (c : Control) → IsTracked c → IsTracked (handle_close_rsp id c)
unfolding handle_close_rsp
handle_close_rsp-IsTracked id c t = Same-IsTracked c _ (ground arith) t

pub begin_close-IsTracked : (c : Control) → IsTracked c → IsTracked (begin_close c).0
unfolding begin_close
begin_close-IsTracked c t = Same-IsTracked c _ (ground arith) t

pub begin_close_tunnel-IsTracked :
    (ref : ℕ) (c : Control) → IsTracked c → IsTracked (begin_close_tunnel ref c)
unfolding begin_close_tunnel
begin_close_tunnel-IsTracked ref c t = Same-IsTracked c _ (ground arith) t
