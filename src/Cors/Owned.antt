-- ===== src/Cors/Owned.antt =====
-- httpcors/cors.go: what a client is told by `WriteHeader`.
use rstream_go.Base.{
  ℕ, Bool, true, false, not, ◌&&◌, none, some, [], ◌∷◌, ◌++◌, ◌≡◌, refl, sym, arith, inl, inr,
  if◌then◌else◌, is_nil, Bool-cases, Text, codes, equal, equal_iff, lookup, lookup-insert, ◌∙◌,
}
use rstream_go.Cors.{Runes}
use rstream_go.Cors.Response.{
  Header, values, Writer, vary_name, origin_name, credentials_name, methods_name, headers_name,
  age_name, expose_name, grant, owned, strip, add_vary, vary_all, grant_all, write_header, granted,
  single,
}

module _ (runes : Runes) where
  lookup-strip : (n : Text) (h : Header) → owned runes n ≡ true → lookup n (strip runes h) ≡ none
  unfolding strip lookup
  lookup-strip n [] o = refl
  lookup-strip n ((name, vs) ∷ h) o = elim (Bool-cases (owned runes name)) [
    | inl e ↦ rw e (lookup-strip n h o)
    | inr e ↦ elim (Bool-cases (equal name n)) [
      | inl q ↦
          let no : owned runes n ≡ false = rw ((equal_iff name n).0 q) at e in
          absurd (ground (arith, o, no))
      | inr q ↦ rw (e, q) (lookup-strip n h o)
    ]
  ]

  lookup-add_vary :
      (value n : Text) (h : Header)
      → equal vary_name n ≡ false
      → lookup n (add_vary runes value h) ≡ lookup n h
  unfolding add_vary
  lookup-add_vary value n h q =
      let e = lookup-insert vary_name n (values vary_name h ++ (value ∷ [])) h in
      ground (arith, e, q)

  lookup-grant :
      (b : Bool) (name value n : Text) (h : Header)
      → lookup n (grant b name value h)
        ≡ (if b && equal name n then some (value ∷ []) else lookup n h)
  unfolding grant
  lookup-grant b name value n h = ground (arith, lookup-insert name n (value ∷ []) h)

  lookup-vary_all :
      (b : Bool) (n : Text) (h : Header)
      → equal vary_name n ≡ false
      → lookup n (vary_all runes b h) ≡ lookup n h
  lookup-vary_all true n h q =
      rw
        (
          lookup-add_vary (codes "Access-Control-Request-Headers") n _ q,
          lookup-add_vary (codes "Access-Control-Request-Method") n _ q,
          lookup-add_vary (codes "Origin") n h q,
        )
        refl
  lookup-vary_all false n h q = lookup-add_vary (codes "Origin") n h q

  lookup-grant_all :
      (w : Writer) (status : ℕ) (n : Text) (h : Header)
      → lookup n h ≡ none
      → lookup n (grant_all runes w status h) ≡ single (granted runes w status n)
  unfolding grant_all granted
  lookup-grant_all w status n h e =
      let p = w.policy in
      let cross = not (is_nil w.origin) in
      rw
        (
          lookup-grant _ expose_name p.expose_headers n _,
          lookup-grant _ age_name p.age n _,
          lookup-grant _ headers_name p.allow_headers n _,
          lookup-grant _ methods_name p.allow_methods n _,
          lookup-grant _ credentials_name (codes "true") n _,
          lookup-grant cross origin_name w.origin n h,
          e,
        )
        (ground arith)

  owned-not_vary :
      (n : Text) → owned runes vary_name ≡ false → owned runes n ≡ true → equal vary_name n ≡ false
  owned-not_vary n v o = elim (Bool-cases (equal vary_name n)) [
    | inl q ↦
        let yes : owned runes vary_name ≡ true = rw (sym ((equal_iff vary_name n).0 q)) at o in
        absurd (ground (arith, v, yes))
    | inr q ↦ q
  ]

  header-unwritten :
      (status : ℕ) (w : Writer)
      → w.written ≡ false
      → (write_header runes status w).header
        ≡ grant_all runes w status (vary_all runes w.preflight (strip runes w.header))
  unfolding write_header
  header-unwritten status w h = simp h

  -- Under every name that starts with "Access-Control-", the header that a writer sends for the first time
  -- says what the policy grants and nothing else: whatever the application had set there is gone, and no
  -- name is granted anything when the request had no admitted origin. (`unicode.ToLower` does not turn
  -- "Vary" into a name of that kind.)
  pub write_header-granted :
      (status : ℕ) (w : Writer) (n : Text)
      → owned runes vary_name ≡ false
      → w.written ≡ false
      → owned runes n ≡ true
      → lookup n (write_header runes status w).header ≡ single (granted runes w status n)
  write_header-granted status w n v h o = rw (header-unwritten status w h) (
      lookup-grant_all w status n (vary_all runes w.preflight (strip runes w.header)) (
        lookup-vary_all w.preflight n (strip runes w.header) (owned-not_vary n v o)
        ∙ lookup-strip n w.header o))
