-- ===== src/Filesystem/Upload.antt =====
-- filesystem/atomic_upload.go and filesystem/receipts.go: an upload streams into a temporary file, which
-- `Close` renames over the target; a durable receipt says how it ended, and `recoverReceipt` decides
-- the receipt of an upload that a crash has cut off. The exported tree and the journal are maps. Every
-- call of the operating system may fail: `fails` says at which sites.
pub mod Close
pub mod Stream
pub mod Stages
pub mod Recover
pub mod Tests
use rstream_go.Base.{
  ℕ, suc, ◌+◌, Bool, true, false, not, ◌&&◌, ◌||◌, Option, none, some, List, [], ◌∷◌, ◌++◌,
  if◌then◌else◌, ◌==◌, is_nil, is_some, Text, codes, equal, has_prefix, Dict, lookup, insert,
  delete,
}

-- `UploadReceipt.State`
pub data State : Type 0 where
  receiving prepared committed rejected interrupted uncertain unknown : State

-- `receiptRecord`; sizes and hashes are the texts that the record holds.
pub record Receipt : Type 0 where
  pub id : Text
  pub path : Text
  pub state : State
  pub status : ℕ
  pub size : Text
  pub sha256 : Text
  pub revision : Text
  pub fingerprint : Text
  pub target : Text
  pub temporary : Text
  pub file_identity : Text

-- A file of the exported tree: its device and inode, its content's digest and size.
pub record File : Type 0 where
  pub identity : Text
  pub digest : Text
  pub file_size : Text
  pub regular : Bool

pub record Disk : Type 0 where
  pub root : Dict File
  pub pending : Option Receipt
  pub receipts : Dict Receipt

-- The calls that may fail. `writeJournalFile` may fail before the file is replaced (`write_…`) and
-- behind that (`sync_…`).
pub data Site : Type 0 where
  read_pending read_terminal write_terminal remove_pending sync_journal : Site
  remove_temporary stat_temporary open_target stat_target hash_target identify_target : Site
  sync_directory sync_file stat_file close_file write_pending rename_file : Site
  sync_terminal sync_pending : Site

abbrev pub upload_prefix : Text
upload_prefix = codes ".rstream-upload-"

-- `digestRevision`
unfoldable pub digest_revision : Text → Text
digest_revision digest = codes "\"sha256-" ++ (digest ++ codes "\"")

abbrev pub is_committed : State → Bool
is_committed committed = true
is_committed _ = false

abbrev pub is_receiving : State → Bool
is_receiving receiving = true
is_receiving _ = false

abbrev pub is_prepared : State → Bool
is_prepared prepared = true
is_prepared _ = false

-- The record as `completeReceipt` writes it.
unfoldable pub finished : Receipt → State → ℕ → Receipt
finished r state status = record r {
  state = state;
  status = status;
  revision = if is_committed state then digest_revision r.sha256 else r.revision;
}

abbrev pub latest : Disk → List Disk → Disk
latest d [] = d
latest d (e ∷ _) = e

-- `receipt_name` is `receiptName`.
module _ (receipt_name : Text → Text) (fails : Site → Bool) where
  -- `completeReceipt`, with every state of the disk that it passes, newest first.
  unfoldable pub complete_receipt : Receipt → State → ℕ → Disk → List Disk × Bool
  unfolding finished
  complete_receipt r state status d =
      let written = record d {
        receipts = insert (receipt_name r.id) (finished r state status) d.receipts;
      } in
      let removed = record written { pending = none } in
      if fails write_terminal
      then ([], false)
      else if fails sync_terminal
      then (written ∷ [], false)
      else if fails remove_pending
      then (written ∷ [], false)
      else (removed ∷ written ∷ [], not (fails sync_journal))

-- The base of the name, `filepath.Base`, is that of a staging file.
abbrev pub staging_name : (Text → Text) → Text → Bool
staging_name base name = has_prefix (base name) upload_prefix

module _ (receipt_name base : Text → Text) (fails : Site → Bool) where
  -- The target of a prepared upload whose temporary file is gone: the state to record, or an error.
  unfoldable pub inspect_target : Receipt → Disk → Option (State × ℕ)
  inspect_target r d = if fails open_target then none else elim (lookup r.target d.root) [
    | none ↦ some (uncertain, 503)
    | some f ↦
        if fails stat_target || not f.regular || fails hash_target
        then none
        else if not (fails identify_target)
            && equal f.identity r.file_identity
            && equal (digest_revision f.digest) (digest_revision r.sha256)
            && equal f.file_size r.size
        then (if fails sync_directory then none else some (committed, 201))
        else some (uncertain, 503)
  ]

  -- The record of an upload that has no terminal receipt: the disk after the removal of its temporary
  -- file, and what to record; `none` is an error.
  unfoldable pub resolve_receipt : Receipt → Disk → Option (Disk × State × ℕ)
  unfolding inspect_target
  resolve_receipt r d =
      let cleaned = record d { root = delete r.temporary d.root } in
      if not (is_nil r.temporary) && not (staging_name base r.temporary)
      then none
      else if is_receiving r.state
      then (if is_nil r.temporary
          then some (d, interrupted, 408)
          else if fails remove_temporary
          then none
          else some (cleaned, interrupted, 408))
      else if is_prepared r.state
      then (if equal (base r.temporary) (codes ".")
            || not (staging_name base r.temporary)
            || fails stat_temporary
          then none
          else if is_some (lookup r.temporary d.root)
          then (if fails remove_temporary then none else some (cleaned, interrupted, 408))
          else elim (inspect_target r d) [
            | none ↦ none
            | some (state, status) ↦ some (d, state, status)
          ])
      else none

  -- `recoverReceipt`: the disk that it leaves, and whether it succeeded. A record that does not parse, or whose identifier
  -- or fingerprint is malformed, is a failing read.
  unfoldable pub recover_receipt : Disk → Disk × Bool
  unfolding complete_receipt resolve_receipt
  recover_receipt d = if fails read_pending then (d, false) else elim d.pending [
    | none ↦ (d, true)
    | some r ↦
        if fails read_terminal then (d, false) else elim (lookup (receipt_name r.id) d.receipts) [
          | some terminal ↦
              if not (equal terminal.fingerprint r.fingerprint) || fails remove_pending
              then (d, false)
              else (record d { pending = none }, not (fails sync_journal))
          | none ↦ elim (resolve_receipt r d) [
            | none ↦ (d, false)
            | some (d', state, status) ↦
                let (states, ok) = complete_receipt receipt_name fails r state status d' in
                (latest d' states, ok)
          ]
        ]
  ]
