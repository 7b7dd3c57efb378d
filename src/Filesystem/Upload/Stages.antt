-- ===== src/Filesystem/Upload/Stages.antt =====
-- The states of the disk that `Close` passes, and so those that a crash can leave.
use rstream_go.Base.{
  ℕ, Bool, true, false, Option, none, some, List, [], ◌∷◌, ◌≡◌, inl, inr, refl, arith, Bool-cases,
  Option-cases, All, All-append, is_nil, Text, equal, equal_iff, equal_refl, lookup, insert, delete,
  lookup-insert, lookup-delete,
}
use rstream_go.Filesystem.Upload.{
  receiving, committed, Receipt, File, Disk, Site, write_terminal, sync_terminal, remove_pending,
  remove_temporary, complete_receipt, finished, staging_name, close_file, stat_file, write_pending,
  sync_pending, rename_file, sync_directory, sync_file,
}
use rstream_go.Filesystem.Upload.Close.{
  validate, Upload, abort, publish, rename_target, prepare, journal, close,
}

-- What stands at the target, if anything, is a regular file and not the file `f`.
abbrev pub Differs : Option File → File → Type 0
Differs none f = Unit
Differs (some g) f = (equal g.identity f.identity ≡ false) × (g.regular ≡ true)

-- An upload about to be closed: `r` is its pending record, `f` its temporary file, which holds what was
-- hashed, and `old` what stands at the target, another regular file if any. `decimal` prints sizes.
module _ (receipt_name base : Text → Text) (decimal : ℕ → Text) where
  pub record IsUpload (u : Upload) (r : Receipt) (f : File) (old : Option File) (d : Disk)
      : Type 0 where
    pub pending_is : d.pending ≡ some r
    pub receipt_is : u.receipt ≡ some r
    pub receiving_is : r.state ≡ receiving
    pub temporary_is : r.temporary ≡ u.temporary
    pub no_terminal : lookup (receipt_name r.id) d.receipts ≡ none
    pub staged_file : lookup u.temporary d.root ≡ some f
    pub target_file : lookup u.target d.root ≡ old
    pub apart : equal u.temporary u.target ≡ false
    pub named : staging_name base u.temporary ≡ true
    pub not_nil : is_nil u.temporary ≡ false
    pub is_regular : f.regular ≡ true
    pub digest_is : f.digest ≡ u.body.hash
    pub size_is : f.file_size ≡ decimal u.body.size
    pub expects_hash : u.body.expected_hash ≡ some r.sha256
    pub expected : ℕ
    pub expects_size : u.body.expected_size ≡ some expected
    pub size_text : r.size ≡ decimal expected
    pub old_differs : Differs old f

-- How far the upload has come on the disk; `p` is the record written before the rename.
pub data Stage (name target temporary : Text) (r p : Receipt) (f : File) (old : Option File)
    (d : Disk) : Type 0 where
  streaming :
      d.pending ≡ some r
      → lookup name d.receipts ≡ none
      → lookup target d.root ≡ old
      → Stage name target temporary r p f old d
  staged :
      d.pending ≡ some p
      → lookup name d.receipts ≡ none
      → lookup target d.root ≡ old
      → Stage name target temporary r p f old d
  renamed :
      d.pending ≡ some p
      → lookup name d.receipts ≡ none
      → lookup target d.root ≡ some f
      → lookup temporary d.root ≡ none
      → (f.digest ≡ r.sha256) × (f.file_size ≡ r.size)
      → Stage name target temporary r p f old d
  published :
      d.pending ≡ some p
      → lookup name d.receipts ≡ some (finished p committed 201)
      → lookup target d.root ≡ some f
      → lookup temporary d.root ≡ none
      → f.digest ≡ r.sha256
      → Stage name target temporary r p f old d
  settled :
      d.pending ≡ none
      → lookup name d.receipts ≡ some (finished p committed 201)
      → lookup target d.root ≡ some f
      → lookup temporary d.root ≡ none
      → f.digest ≡ r.sha256
      → Stage name target temporary r p f old d

module _ (receipt_name base : Text → Text) (decimal : ℕ → Text) (fails : Site → Bool) (u : Upload)
    (r : Receipt) (f : File) (old : Option File) where
  abbrev At : Disk → Type 0
  At = Stage (receipt_name r.id) u.target u.temporary r (prepare u f r) f old

  -- `validate` has accepted the body: the file is what the record describes.
  valid_content :
      {d : Disk}
      → IsUpload receipt_name base decimal u r f old d
      → validate u.body ≡ none
      → (f.digest ≡ r.sha256) × (f.file_size ≡ r.size)
  unfolding validate
  valid_content v h = ground (
    arith,
    v.expects_hash,
    v.expects_size,
    v.digest_is,
    v.size_is,
    v.size_text,
    equal_iff r.sha256 u.body.hash,
  )

  cleared-streaming :
      (d : Disk)
      → IsUpload receipt_name base decimal u r f old d
      → At (record d { root = delete u.temporary d.root })
  cleared-streaming d v =
      streaming v.pending_is v.no_terminal
        (ground (arith, v.target_file, v.apart, lookup-delete u.temporary u.target d.root))

  abbrev noted : Disk → Disk
  noted d = record d { pending = some (prepare u f r) }

  noted-staged : (d : Disk) → IsUpload receipt_name base decimal u r f old d → At (noted d)
  noted-staged d v = staged refl v.no_terminal v.target_file

  noted-cleared :
      (d : Disk)
      → IsUpload receipt_name base decimal u r f old d
      → At (record d { pending = some (prepare u f r); root = delete u.temporary d.root })
  noted-cleared d v =
      staged refl v.no_terminal
        (ground (arith, v.target_file, v.apart, lookup-delete u.temporary u.target d.root))

  abort-At :
      (status : ℕ) (d : Disk) (states : List Disk)
      → At (record d { root = delete u.temporary d.root })
      → All At states
      → All At (abort receipt_name fails u status d states).states
  unfolding abort
  abort-At status d states c a = elim (Bool-cases (fails remove_temporary)) [
    | inl e ↦ rw e a
    | inr e ↦ rw e ((c, a))
  ]

  finished-lookup :
      (d : Disk)
      → lookup
          (receipt_name r.id)
          (insert (receipt_name r.id) (finished (prepare u f r) committed 201) d.receipts)
        ≡ some (finished (prepare u f r) committed 201)
  finished-lookup d =
      let wrote =
        lookup-insert (receipt_name r.id) (receipt_name r.id)
          (finished (prepare u f r) committed 201) d.receipts in
      ground (arith, wrote, equal_refl (receipt_name r.id))

  -- `completeReceipt` on the renamed disk.
  complete-At :
      (d : Disk)
      → d.pending ≡ some (prepare u f r)
      → lookup u.target d.root ≡ some f
      → lookup u.temporary d.root ≡ none
      → f.digest ≡ r.sha256
      → All At (complete_receipt receipt_name fails (prepare u f r) committed 201 d).0
  unfolding complete_receipt
  complete-At d p t c k =
      let w = finished-lookup d in
      elim (Bool-cases (fails write_terminal)) [
        | inl e ↦ rw e tt
        | inr e ↦ elim (Bool-cases (fails sync_terminal)) [
          | inl e2 ↦ rw (e, e2) ((published p w t c k, tt))
          | inr e2 ↦ elim (Bool-cases (fails remove_pending)) [
            | inl e3 ↦ rw (e, e2, e3) ((published p w t c k, tt))
            | inr e3 ↦ rw (e, e2, e3) ((settled refl w t c k, (published p w t c k, tt)))
          ]
        ]
      ]

  -- What `Close` does once the file is renamed.
  publish-At :
      (d : Disk)
      → (states : List Disk) → d.pending ≡ some (prepare u f r)
      → lookup u.target d.root ≡ some f
      → lookup u.temporary d.root ≡ none
      → f.digest ≡ r.sha256
      → All At states
      → All At
          (publish receipt_name fails (record u { receipt = some (prepare u f r) }) d states).states
  unfolding publish
  publish-At d states p t c k a = elim (Bool-cases (fails sync_directory)) [
    | inl e ↦ rw e a
    | inr e ↦ rw e (
        All-append At (complete_receipt receipt_name fails (prepare u f r) committed 201 d).0 states
          (complete-At d p t c k) a)
  ]

  target-renamed :
      (d : Disk) → lookup u.target (insert u.target f (delete u.temporary d.root)) ≡ some f
  target-renamed d =
      let e = lookup-insert u.target u.target f (delete u.temporary d.root) in
      ground (arith, e, equal_refl u.target)

  temporary-renamed :
      (d : Disk)
      → equal u.temporary u.target ≡ false
      → lookup u.temporary (insert u.target f (delete u.temporary d.root)) ≡ none
  temporary-renamed d a =
      let e = lookup-insert u.target u.temporary f (delete u.temporary d.root) in
      let g = lookup-delete u.temporary u.temporary d.root in
      ground (
        arith,
        e,
        g,
        a,
        equal_refl u.temporary,
        equal_iff u.target u.temporary,
        equal_refl u.target,
      )

  rename-At :
      (d : Disk)
      → IsUpload receipt_name base decimal u r f old d
      → validate u.body ≡ none
      → All At
          (rename_target receipt_name fails
            (record u { receipt = some (prepare u f r) })
            f
            (noted d)
            (noted d ∷ [])).states
  unfolding rename_target
  rename-At d v ok =
      let n = noted-staged d v in
      elim (Bool-cases (fails rename_file)) [
        | inl e ↦ rw e (abort-At 500 (noted d) (noted d ∷ []) (noted-cleared d v) (n, tt))
        | inr e ↦
            let t = target-renamed d in
            let c = temporary-renamed d v.apart in
            rw e (
              publish-At
                (record d {
                  pending = some (prepare u f r);
                  root = insert u.target f (delete u.temporary d.root);
                })
                _ refl t c (valid_content v ok).0
                (renamed refl v.no_terminal t c (valid_content v ok), (n, tt)))
      ]

  journal-At :
      (d : Disk)
      → IsUpload receipt_name base decimal u r f old d
      → validate u.body ≡ none
      → All At (journal receipt_name fails u f d).states
  unfolding journal
  journal-At d v ok =
      let c = cleared-streaming d v in
      rw v.receipt_is (elim (Bool-cases (fails stat_file)) [
        | inl e ↦ rw e (abort-At 503 d [] c tt)
        | inr e ↦ elim (Bool-cases (fails close_file)) [
          | inl e2 ↦ rw (e, e2) (abort-At 500 d [] c tt)
          | inr e2 ↦ elim (Bool-cases (fails write_pending)) [
            | inl e3 ↦ rw (e, e2, e3) (abort-At 503 d [] c tt)
            | inr e3 ↦ elim (Bool-cases (fails sync_pending)) [
              | inl e4 ↦
                  rw (e, e2, e3, e4)
                    (abort-At 503 (noted d) (noted d ∷ []) (noted-cleared d v)
                      (noted-staged d v, tt))
              | inr e4 ↦ rw (e, e2, e3, e4) (rename-At d v ok)
            ]
          ]
        ]
      ])

  -- Every state that `Close` passes, in any pattern of failures.
  pub close-At :
      (d : Disk)
      → IsUpload receipt_name base decimal u r f old d
      → All At (close receipt_name fails u f d).states
  unfolding close
  close-At d v =
      let c = cleared-streaming d v in
      elim (Bool-cases u.is_closed) [
        | inl e ↦ rw e tt
        | inr e ↦ elim (Bool-cases u.write_failed) [
          | inl e2 ↦ rw (e, e2) (abort-At 500 d [] c tt)
          | inr e2 ↦ elim (Option-cases (validate u.body)) [
            | inl e3 ↦ elim (Bool-cases (fails sync_file)) [
              | inl e4 ↦ rw (e, e2, e3, e4) (abort-At 500 d [] c tt)
              | inr e4 ↦ rw (e, e2, e3, e4) (journal-At d v e3)
            ]
            | inr (status, e3) ↦ rw (e, e2, e3) (abort-At status d [] c tt)
          ]
        ]
      ]
