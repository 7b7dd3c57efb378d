-- ===== src/Filesystem/Upload/Close.antt =====
-- filesystem/atomic_upload.go: `uploadBody.validate` and `atomicUpload.Close`, with every state that the
-- disk passes, since a crash may leave it in any of them.
use rstream_go.Base.{
  ℕ, Bool, true, false, not, ◌||◌, Option, none, some, List, [], ◌∷◌, ◌++◌, if◌then◌else◌, ◌==◌,
  Text, equal, insert, delete,
}
use rstream_go.Filesystem.Upload.{
  prepared, committed, Receipt, File, Disk, Site, sync_file, stat_file, close_file, write_pending,
  sync_pending, rename_file, remove_temporary, sync_directory, complete_receipt,
}

-- The error of a read of the body: the limit on its size, or another.
pub data ReadError : Type 0 where
  too_large : ReadError
  other : ReadError

-- `uploadBody` at the time of `Close`; `expected_size` is `none` for a negative one.
pub record UploadBody : Type 0 where
  pub ctx_done : Bool
  pub read_error : Option ReadError
  pub complete : Bool
  pub expected_size : Option ℕ
  pub size : ℕ
  pub expected_hash : Option Text
  pub hash : Text
  pub status : ℕ
  pub effect_committed : Bool

abbrev size_differs : Option ℕ → ℕ → Bool
size_differs none size = false
size_differs (some n) size = not (size == n)

abbrev hash_differs : Option Text → Text → Bool
hash_differs none hash = false
hash_differs (some h) hash = not (equal h hash)

-- `validate`: the status of a refusal.
unfoldable pub validate : UploadBody → Option ℕ
validate b = if b.ctx_done then some 408 else elim b.read_error [
  | some too_large ↦ some 413
  | some other ↦ some 400
  | none ↦
      if not b.complete || size_differs b.expected_size b.size
      then some 400
      else if hash_differs b.expected_hash b.hash
      then some 422
      else none
]

pub record Upload : Type 0 where
  pub body : UploadBody
  pub target : Text
  pub temporary : Text
  pub is_closed : Bool
  pub write_failed : Bool
  pub receipt : Option Receipt

-- What `Close` leaves: the body's two results, whether it returned nil, and the states that the disk
-- passed, newest first.
pub record Closed : Type 0 where
  pub status : ℕ
  pub effect_committed : Bool
  pub ok : Bool
  pub states : List Disk

-- The record with the state `prepared` that is written to the journal before the rename.
abbrev pub prepare : Upload → File → Receipt → Receipt
prepare u f r = record r {
  state = prepared;
  target = u.target;
  temporary = u.temporary;
  file_identity = f.identity;
}

module _ (receipt_name : Text → Text) (fails : Site → Bool) where
  -- A failure that removes the temporary file, which may fail too.
  unfoldable pub abort : Upload → ℕ → Disk → List Disk → Closed
  abort u status d states = record {
    status = status;
    effect_committed = u.body.effect_committed;
    ok = false;
    states =
        if fails remove_temporary
        then states
        else record d { root = delete u.temporary d.root } ∷ states;
  }

  abbrev pub outcome : Upload → Bool → List Disk → Closed
  outcome u ok states = record {
    status = if ok then u.body.status else 503;
    effect_committed = true;
    ok = ok;
    states = states;
  }

  -- Behind the rename.
  unfoldable pub publish : Upload → Disk → List Disk → Closed
  publish u d states = elim u.receipt [
    | none ↦ outcome u true states
    | some r ↦
        if fails sync_directory
        then outcome u false states
        else let (after, ok) = complete_receipt receipt_name fails r committed 201 d in
          outcome u ok (after ++ states)
  ]

  unfoldable pub rename_target : Upload → File → Disk → List Disk → Closed
  unfolding abort
  rename_target u f d states =
      let renamed = record d { root = insert u.target f (delete u.temporary d.root) } in
      if fails rename_file then abort u 500 d states else publish u renamed (renamed ∷ states)

  unfoldable pub journal : Upload → File → Disk → Closed
  unfolding abort rename_target
  journal u f d = elim u.receipt [
    | none ↦ if fails close_file then abort u 500 d [] else rename_target u f d []
    | some r ↦
        let r' = prepare u f r in
        let noted = record d { pending = some r' } in
        if fails stat_file
        then abort u 503 d []
        else if fails close_file
        then abort u 500 d []
        else if fails write_pending
        then abort u 503 d []
        else if fails sync_pending
        then abort u 503 noted (noted ∷ [])
        else rename_target (record u { receipt = some r' }) f noted (noted ∷ [])
  ]

  -- `Close`, for the temporary file `f` behind the descriptor.
  unfoldable pub close : Upload → File → Disk → Closed
  unfolding validate abort journal
  close u f d =
      if u.is_closed
      then record {
        status = u.body.status;
        effect_committed = u.body.effect_committed;
        ok = false;
        states = [];
      }
      else if u.write_failed
      then abort u 500 d []
      else elim (validate u.body) [
        | some status ↦ abort u status d []
        | none ↦ if fails sync_file then abort u 500 d [] else journal u f d
      ]
