-- ===== src/Filesystem/Upload/Stream.antt =====
-- filesystem/atomic_upload.go and filesystem/receipts.go: the body as it is read and written, and the form of
-- an upload's id. `hash_more` is the running digest.
use rstream_go.Base.{
  ℕ, ◌+◌, Bool, true, false, ◌&&◌, ◌||◌, Option, none, some, leb, ltb, if◌then◌else◌, ◌==◌, length,
  all, Text,
}
use rstream_go.Filesystem.Upload.Close.{UploadBody, ReadError, other, Upload}

pub data ReadEnd : Type 0 where
  more end_of_file : ReadEnd
  failed : ReadError → ReadEnd

-- `uploadBody.Read`, for the bytes and the end that the request's body gives.
unfoldable pub read_body : (Text → Text → Text) → Text → ReadEnd → UploadBody → UploadBody
read_body hash_more chunk end b =
    let b' = record b { size = b.size + length chunk; hash = hash_more b.hash chunk } in
    if b.ctx_done then record b { read_error = some other } else elim end [
      | more ↦ b'
      | end_of_file ↦ record b' { complete = true }
      | failed e ↦ record b' { read_error = some e }
    ]

-- `Write`: `written` is what the file took, `none` for its error.
unfoldable pub write_chunk : Text → Option ℕ → Upload → Upload
write_chunk chunk written u = elim written [
  | none ↦ record u { write_failed = true }
  | some n ↦ if n == length chunk then u else record u { write_failed = true }
]

abbrev pub is_id_char : ℕ → Bool
is_id_char c =
    leb 97 c && leb c 122 || leb 65 c && leb c 90 || leb 48 c && leb c 57 || c == 45 || c == 95

-- `validUploadID`. (Every character that passes is one byte, so the two lengths agree on what is valid.)
unfoldable pub valid_upload_id : Text → Bool
valid_upload_id id = if ltb (length id) 16 || ltb 128 (length id) then false else all is_id_char id
