-- ===== src/Socks/Secrecy.antt =====
-- socks5_proxy.go: when the handshake writes the credentials.
use mathlib.Core.Path.{subst}
use rstream_go.Base.{
  ℕ, ◌≡◌, ◌⊎◌, refl, sym, ◌∙◌, ap, inl, inr, arith, Bool, true, false, not, List, [], ◌∷◌, ◌++◌,
  ◌==◌, if_rule, list_rule,
}
use rstream_go.Socks.{
  Bytes, Address, Net, Failure, write_failed, Outcome, done, err, version, success, no_auth,
  user_pass_auth, no_acceptable,
}
use rstream_go.Socks.Client.{
  ProxyConfig, Conn, Exec, ◌>>=◌, write, reading, read_pair, greeting, use_method, negotiate,
  build_request, read_reply, check_status, exchange, send_built, ask, handshake,
}

-- A property of a chain of steps, from its first step: a write, a read, any step.
writing_rule :
    {B : Type 0} (P : Outcome B × Conn → Type 0) (bs : Bytes) (f : Unit → Exec B) (c : Conn)
    → ((ws : List Bool) → P (f tt (record c { outgoing = c.outgoing ++ bs; writes = ws })))
    → ((ws : List Bool) → P (err write_failed, record c { writes = ws }))
    → P ((write bs >>= f) c)
unfolding write
writing_rule P bs f c g h =
    let Q = λ (x : Outcome Unit × Conn). P (elim x.0 [ done a ↦ f a x.1 | err e ↦ (err e, x.1) ]) in
    list_rule Q c.writes _ _
      (λ e. subst (λ ws. P (err write_failed, record c { writes = ws })) (sym e) (h []))
      (λ ok ws e. if_rule Q ok _ _ (λ _. g ws) (λ _. h ws))

outcome_rule :
    {A B : Type 0} (P : Outcome B × Conn → Type 0) (r : Outcome (A × Bytes)) (f : A → Exec B)
    (c : Conn)
    → ((a : A) (left : Bytes) → r ≡ done (a, left) → P (f a (record c { incoming = left })))
    → ((e : Failure) → P (err e, c))
    → P (
        let x : Outcome A × Conn = (elim r [
          | done (a, left) ↦ (done a, record c { incoming = left })
          | err e ↦ (err e, c)
        ]) in
        elim x.0 [ done a ↦ f a x.1 | err e ↦ (err e, x.1) ])
outcome_rule P (done (a, left)) f c g h = g a left refl
outcome_rule P (err e) f c g h = h e

reading_rule :
    {A B : Type 0} (P : Outcome B × Conn → Type 0) (r : Bytes → Outcome (A × Bytes))
    (f : A → Exec B) (c : Conn)
    → ((a : A) (left : Bytes)
        → r c.incoming ≡ done (a, left)
        → P (f a (record c { incoming = left })))
    → ((e : Failure) → P (err e, c))
    → P ((reading r >>= f) c)
unfolding reading
reading_rule P r f c = outcome_rule P (r c.incoming) f c

pair_rule :
    {A B : Type 0} (Q : Outcome A × Conn → Type 0) (P : Outcome B × Conn → Type 0) (f : A → Exec B)
    (x : Outcome A × Conn)
    → Q x
    → ((a : A) (d : Conn) → Q (done a, d) → P (f a d))
    → ((e : Failure) (d : Conn) → Q (err e, d) → P (err e, d))
    → P (elim x.0 [ done a ↦ f a x.1 | err e ↦ (err e, x.1) ])
pair_rule Q P f (done a, d) q g h = g a d q
pair_rule Q P f (err e, d) q g h = h e d q

chain_rule :
    {A B : Type 0} (Q : Outcome A × Conn → Type 0) (P : Outcome B × Conn → Type 0) (m : Exec A)
    (f : A → Exec B) (c : Conn)
    → Q (m c)
    → ((a : A) (d : Conn) → Q (done a, d) → P (f a d))
    → ((e : Failure) (d : Conn) → Q (err e, d) → P (err e, d))
    → P ((m >>= f) c)
chain_rule Q P m f c q g h = pair_rule Q P f (m c) q g h

abbrev NoAsk : ProxyConfig → Conn → Type 0
NoAsk cfg c = (cfg.auth ≡ false) ⊎ (¬ ((r : Bytes) × (c.incoming ≡ version ∷ 2 ∷ r)))

-- What was written when the negotiation ends without the credentials.
abbrev Greeted : ProxyConfig → Outcome {0} Unit × Conn → Type 0
Greeted cfg (done _, c) = c.outgoing ≡ greeting cfg
Greeted cfg (err _, c) = (c.outgoing ≡ []) ⊎ (c.outgoing ≡ greeting cfg)

read_pair_cases :
    (i : Bytes) (a b : ℕ) (left : Bytes) → read_pair i ≡ done ((a, b), left) → i ≡ a ∷ b ∷ left
unfolding read_pair
read_pair_cases [] a b left h = absurd (cc)
read_pair_cases (_ ∷ []) a b left h = absurd (cc)
read_pair_cases (x ∷ y ∷ r) a b left h = ground (arith, h)

use_method-Greeted :
    (cfg : ProxyConfig) (v method : ℕ) (d : Conn)
    → d.outgoing ≡ greeting cfg
    → (cfg.auth ≡ true → v ≡ version → method ≡ 2 → ⊥)
    → Greeted cfg (use_method cfg (v, method) d)
unfolding use_method
use_method-Greeted cfg v method d o never =
    let P = λ (k : Exec Unit). Greeted cfg (k d) in
    if_rule P (not (v == version)) _ _ (λ _. inr o)
      (λ a.
        if_rule P (method == no_auth) _ _ (λ _. o)
          (λ _.
            if_rule P (method == user_pass_auth) _ _
              (λ b.
                if_rule P cfg.auth _ _
                  (λ c. absurd (never c (ground (arith, a)) (ground (arith, b)))) (λ _. inr o))
              (λ _. if_rule P (method == no_acceptable) _ _ (λ _. inr o) (λ _. inr o))))

negotiate-Greeted :
    (cfg : ProxyConfig) (c : Conn) → NoAsk cfg c → c.outgoing ≡ [] → Greeted cfg (negotiate cfg c)
unfolding negotiate
negotiate-Greeted cfg c h o =
    writing_rule (Greeted cfg) (greeting cfg) (λ _. reading read_pair >>= use_method cfg) c
      (λ ws.
        reading_rule (Greeted cfg) read_pair (use_method cfg)
          (record c { outgoing = c.outgoing ++ greeting cfg; writes = ws })
          (λ (v, method) left e.
            use_method-Greeted cfg v method
              (record c { incoming = left; outgoing = c.outgoing ++ greeting cfg; writes = ws })
              (ap (λ x. x ++ greeting cfg) o)
              (λ auth is_v is_m. elim h [
                | inl off ↦ ground (arith, auth, off)
                | inr never ↦
                    never (left, read_pair_cases c.incoming v method left e ∙ rw (is_v, is_m) refl)
              ]))
          (λ e. inr (ap (λ x. x ++ greeting cfg) o)))
      (λ ws. inl o)

module _ (n : Net) where
  -- Nothing, the greeting, or the greeting with the request.
  abbrev pub Plain : ProxyConfig → ℕ → Address → Bytes → Type 0
  Plain cfg command target out =
      (out ≡ [])
      ⊎ (out ≡ greeting cfg)
      ⊎ ((request : Bytes) × (build_request n command target ≡ done request)
          × (out ≡ greeting cfg ++ request))

  ask-Plain :
      (cfg : ProxyConfig) (command : ℕ) (target : Address) (d : Conn)
      → d.outgoing ≡ greeting cfg
      → Plain cfg command target (ask n command target d).1.outgoing
  unfolding ask send_built exchange
  ask-Plain cfg command target d o = request_rule (build_request n command target) refl
    where
      P : Outcome Address × Conn → Type 0
      P x = Plain cfg command target x.1.outgoing

      request_rule : (r : Outcome Bytes) → build_request n command target ≡ r → P (send_built n r d)
      request_rule (err e) h = inr (inl o)
      request_rule (done req) h =
          let sent : Plain cfg command target (d.outgoing ++ req) =
            inr (inr (req, h, ap (λ x. x ++ req) o)) in
          writing_rule P req (λ _. reading (read_reply n) >>= check_status n) d
            (λ ws.
              reading_rule P (read_reply n) (check_status n)
                (record d { outgoing = d.outgoing ++ req; writes = ws })
                (λ (status, addr) left e.
                  if_rule
                    (λ (k : Exec Address).
                      P (
                        k (record d {
                          incoming = left;
                          outgoing = d.outgoing ++ req;
                          writes = ws;
                        })))
                    (status == success) _ _ (λ _. sent) (λ _. sent))
                (λ e. sent))
            (λ ws. inr (inl o))

  -- Without an offer of credentials, or if the proxy does not ask for them, the handshake sends none: whatever the proxy
  -- sends and whichever write fails, the client has written nothing, its greeting, or its greeting with
  -- the request.
  pub handshake-keeps_credentials :
      (cfg : ProxyConfig) (command : ℕ) (target : Address) (c : Conn)
      → (cfg.auth ≡ false) ⊎ (¬ ((r : Bytes) × (c.incoming ≡ version ∷ 2 ∷ r)))
      → c.outgoing ≡ []
      → let out = (handshake n cfg command target c).1.outgoing in
        (out ≡ [])
        ⊎ (out ≡ greeting cfg)
        ⊎ ((request : Bytes) × (build_request n command target ≡ done request)
            × (out ≡ greeting cfg ++ request))
  unfolding handshake
  handshake-keeps_credentials cfg command target c h e =
      chain_rule (Greeted cfg) (λ x. Plain cfg command target x.1.outgoing) (negotiate cfg)
        (λ _. ask n command target) c (negotiate-Greeted cfg c h e)
        (λ _ d o. ask-Plain cfg command target d o)
        (λ _ d o. elim o [ inl p ↦ inl p | inr p ↦ inr (inl p) ])
