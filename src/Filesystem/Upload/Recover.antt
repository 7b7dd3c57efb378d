-- ===== src/Filesystem/Upload/Recover.antt =====
-- filesystem/receipts.go: `recoverReceipt` on each state of the disk that `Close` can leave.
use rstream_go.Base.{
  ℕ, Bool, true, false, Option, none, some, [], ◌∷◌, ◌≡◌, ◌≢◌, inl, inr, refl, sym, ap, arith,
  Bool-cases, Option-cases, All, All-map, Text, codes, equal, equal_iff, equal_refl, has_prefix,
  lookup, insert, delete, lookup-insert, lookup-delete,
}
use rstream_go.Filesystem.Upload.{
  State, committed, interrupted, uncertain, Receipt, File, Disk, Site, is_committed,
  complete_receipt, finished, staging_name, recover_receipt, resolve_receipt, inspect_target,
  digest_revision, upload_prefix,
}
use rstream_go.Filesystem.Upload.Close.{Upload, prepare, close}
use rstream_go.Filesystem.Upload.Stages.{
  Differs, IsUpload, Stage, streaming, staged, renamed, published, settled, close-At,
}

-- A run in which no call fails.
abbrev pub no_fault : Site → Bool
no_fault _ = false

-- The receipt `t` tells what stands at the target: the upload, or what stood there before it.
pub data IsTold (name target temporary : Text) (f : File) (old : Option File) (d : Disk)
    : Type 0 where
  kept :
      (t : Receipt)
      → d.pending ≡ none
      → lookup name d.receipts ≡ some t
      → is_committed t.state ≡ false
      → lookup target d.root ≡ old
      → lookup temporary d.root ≡ none
      → IsTold name target temporary f old d
  replaced :
      (t : Receipt)
      → d.pending ≡ none
      → lookup name d.receipts ≡ some t
      → (t.state ≡ committed) × (t.status ≡ 201) × (t.revision ≡ digest_revision f.digest)
      → lookup target d.root ≡ some f
      → lookup temporary d.root ≡ none
      → IsTold name target temporary f old d

no_prefix : has_prefix (codes ".") upload_prefix ≢ true
unfolding has_prefix codes
no_prefix = ground arith

module _ (receipt_name base : Text → Text) (decimal : ℕ → Text) (u : Upload) (r : Receipt)
    (f : File) (old : Option File) where
  -- Recovery without a fault succeeds on `d`, and its receipt tells the truth.
  abbrev pub Recovers : Disk → Type 0
  Recovers d =
      (IsTold (receipt_name r.id) u.target u.temporary f old
        (recover_receipt receipt_name base no_fault d).0)
      × ((recover_receipt receipt_name base no_fault d).1 ≡ true)

  abbrev Shape : Type 0
  Shape = (d : Disk) × IsUpload receipt_name base decimal u r f old d

  -- What `completeReceipt` leaves when nothing fails.
  completed :
      (p : Receipt) (s : State) (n : ℕ) (d : Disk)
      → complete_receipt receipt_name no_fault p s n d ≡ (
        record d {
          pending = none;
          receipts = insert (receipt_name p.id) (finished p s n) d.receipts;
        }
            ∷ record d { receipts = insert (receipt_name p.id) (finished p s n) d.receipts }
            ∷ [],
        true,
      )
  unfolding complete_receipt
  completed p s n d = refl

  written :
      (p : Receipt) (d : Disk)
      → lookup (receipt_name r.id) (insert (receipt_name r.id) p d.receipts) ≡ some p
  written p d =
      let e = lookup-insert (receipt_name r.id) (receipt_name r.id) p d.receipts in
      ground (arith, e, equal_refl (receipt_name r.id))

  -- The record `p` resolves to `d'`, `s` and `n`, so that is what recovery writes.
  recover-resolve :
      (p : Receipt) (d d' : Disk) (s : State) (n : ℕ)
      → d.pending ≡ some p
      → lookup (receipt_name p.id) d.receipts ≡ none
      → resolve_receipt receipt_name base no_fault p d ≡ some (d', s, n)
      → recover_receipt receipt_name base no_fault d ≡ (
        record d' {
          pending = none;
          receipts = insert (receipt_name p.id) (finished p s n) d'.receipts;
        },
        true,
      )
  unfolding recover_receipt
  recover-resolve p d d' s n h t e = rw (h, t, e) refl

  settled-Recovers :
      (p : Receipt) (t : Receipt) (d : Disk)
      → d.pending ≡ some p
      → lookup (receipt_name p.id) d.receipts ≡ some t
      → t.fingerprint ≡ p.fingerprint
      → recover_receipt receipt_name base no_fault d ≡ (record d { pending = none }, true)
  unfolding recover_receipt
  settled-Recovers p t d h l e = rw (h, l, e, equal_refl p.fingerprint) refl

  -- A staging file is not the current directory.
  base-not_dot : (t : Text) → staging_name base t ≡ true → equal (base t) (codes ".") ≡ false
  base-not_dot t n = elim (Bool-cases (equal (base t) (codes "."))) [
    | inl e ↦
        let no : has_prefix (codes ".") upload_prefix ≡ true =
          rw ((equal_iff (base t) (codes ".")).0 e) at n in
        absurd (no_prefix no)
    | inr e ↦ e
  ]

  resolve-receiving :
      (d : Disk)
      → Shape
      → resolve_receipt receipt_name base no_fault r d
        ≡ some (record d { root = delete u.temporary d.root }, interrupted, 408)
  unfolding resolve_receipt
  resolve-receiving d (_, v) = rw (v.temporary_is, v.receiving_is, v.not_nil, v.named) refl

  resolve-present :
      (g : File) (d : Disk)
      → Shape
      → lookup u.temporary d.root ≡ some g
      → resolve_receipt receipt_name base no_fault (prepare u f r) d
        ≡ some (record d { root = delete u.temporary d.root }, interrupted, 408)
  unfolding resolve_receipt
  resolve-present g d (_, v) h = rw (v.not_nil, v.named, h, base-not_dot u.temporary v.named) refl

  resolve-gone :
      (s : State) (n : ℕ) (d : Disk)
      → Shape
      → lookup u.temporary d.root ≡ none
      → inspect_target receipt_name base no_fault (prepare u f r) d ≡ some (s, n)
      → resolve_receipt receipt_name base no_fault (prepare u f r) d ≡ some (d, s, n)
  unfolding resolve_receipt
  resolve-gone s n d (_, v) h e =
      rw (v.not_nil, v.named, h, base-not_dot u.temporary v.named, e) refl

  inspect-old :
      (d : Disk)
      → Shape
      → lookup u.target d.root ≡ old
      → inspect_target receipt_name base no_fault (prepare u f r) d ≡ some (uncertain, 503)
  unfolding inspect_target
  inspect-old d (_, v) h = elim (Option-cases old) [
    | inl e ↦ rw (h, e) refl
    | inr (g, e) ↦ let (i, k) : Differs (some g) f = rw e at v.old_differs in rw (h, e, k, i) refl
  ]

  inspect-new :
      (d : Disk)
      → Shape
      → lookup u.target d.root ≡ some f
      → (f.digest ≡ r.sha256) × (f.file_size ≡ r.size)
      → inspect_target receipt_name base no_fault (prepare u f r) d ≡ some (committed, 201)
  unfolding inspect_target
  inspect-new d (_, v) h (a, b) =
      rw
        (
          h,
          v.is_regular,
          equal_refl f.identity,
          a,
          equal_refl (digest_revision r.sha256),
          b,
          equal_refl r.size,
        )
        refl

  -- The receipt of an upload that was cut off before the rename.
  told-kept :
      (p : Receipt) (s : State) (n : ℕ) (d e : Disk)
      → receipt_name p.id ≡ receipt_name r.id
      → is_committed s ≡ false
      → d.pending ≡ some p
      → lookup (receipt_name p.id) d.receipts ≡ none
      → resolve_receipt receipt_name base no_fault p d ≡ some (e, s, n)
      → lookup u.target e.root ≡ old
      → lookup u.temporary e.root ≡ none
      → Recovers d
  unfolding finished
  told-kept p s n d e i k h l q t c =
      rw (recover-resolve p d e s n h l q)
        (kept (finished p s n) refl (rw i (written (finished p s n) e)) k t c, refl)

  target-kept :
      (d : Disk)
      → Shape
      → lookup u.target d.root ≡ old
      → (lookup u.target (delete u.temporary d.root) ≡ old)
        × (lookup u.temporary (delete u.temporary d.root) ≡ none)
  target-kept d (_, v) t =
      let a = lookup-delete u.temporary u.target d.root in
      let b = lookup-delete u.temporary u.temporary d.root in
      (ground (arith, t, v.apart, a), ground (arith, b, equal_refl u.temporary))

  recover-none :
      (d : Disk) → d.pending ≡ none → recover_receipt receipt_name base no_fault d ≡ (d, true)
  unfolding recover_receipt
  recover-none d h = simp h

  Stage-Recovers :
      (d : Disk)
      → Shape
      → Stage (receipt_name r.id) u.target u.temporary r (prepare u f r) f old d
      → Recovers d
  unfolding finished
  Stage-Recovers d shape (streaming p l t) =
      let (a, b) = target-kept d shape t in
      told-kept r interrupted 408 d _ refl refl p l (resolve-receiving d shape) a b
  Stage-Recovers d shape (staged p l t) = elim (Option-cases (lookup u.temporary d.root)) [
    | inl e ↦
        let q = resolve-gone uncertain 503 d shape e (inspect-old d shape t) in
        told-kept (prepare u f r) uncertain 503 d d refl refl p l q t e
    | inr (g, e) ↦
        let (a, b) = target-kept d shape t in
        told-kept (prepare u f r) interrupted 408 d _ refl refl p l (resolve-present g d shape e) a
          b
  ]
  Stage-Recovers d shape (renamed p l t c k) =
      let q = resolve-gone committed 201 d shape c (inspect-new d shape t k) in
      let w = written (finished (prepare u f r) committed 201) d in
      rw (recover-resolve (prepare u f r) d d committed 201 p l q)
        (replaced _ refl w (refl, refl, ap digest_revision (sym k.0)) t c, refl)
  Stage-Recovers d shape (published p l t c k) =
      rw (settled-Recovers (prepare u f r) _ d p l refl)
        (replaced _ refl l (refl, refl, ap digest_revision (sym k)) t c, refl)
  Stage-Recovers d shape (settled p l t c k) =
      rw (recover-none d p) (replaced _ p l (refl, refl, ap digest_revision (sym k)) t c, refl)

  -- A crash at any point of `Close`, in any pattern of failing system calls, and a recovery without a
  -- failure: recovery succeeds, the temporary file and the pending record are gone, and either the
  -- target is what it was and the durable receipt is not committed, or the target is the whole upload
  -- and the receipt is committed with status 201 and the revision of the upload's own digest.
  pub close-Recovers :
      (fails : Site → Bool) (d : Disk)
      → IsUpload receipt_name base decimal u r f old d
      → Recovers d × All Recovers (close receipt_name fails u f d).states
  close-Recovers fails d v =
      let shape : Shape = (d, v) in
      (
        Stage-Recovers d shape (streaming v.pending_is v.no_terminal v.target_file),
        All-map Recovers (λ e. Stage-Recovers e shape) (close receipt_name fails u f d).states
            (close-At receipt_name base decimal fails u r f old d v),
      )
