-- ===== src/Filesystem/Upload/Tests.antt =====
-- An upload of one file over another, and its recovery from every crash.
use rstream_go.Base.{
  ℕ, Bool, true, false, none, some, [], ◌∷◌, refl, All, Text, lookup, equal, has_prefix, codes,
}
use rstream_go.Filesystem.Upload.{
  receiving, Receipt, File, Disk, Site, rename_file, remove_temporary,
}
use rstream_go.Filesystem.Upload.Close.{Upload, close}
use rstream_go.Filesystem.Upload.Stages.{IsUpload}
use rstream_go.Filesystem.Upload.Recover.{Recovers, close-Recovers}

abbrev base_name : Text → Text
base_name name = name

abbrev receipt_file : Text → Text
receipt_file id = id

abbrev print_size : ℕ → Text
print_size n = n ∷ []

abbrev staging : Text
staging = codes ".rstream-upload-1"

abbrev record_1 : Receipt
record_1 = record {
  id = codes "upload-0000000001";
  path = codes "a";
  state = receiving;
  status = 202;
  size = 3 ∷ [];
  sha256 = codes "new";
  revision = [];
  fingerprint = codes "0123456789abcdef0123456789abcdef0123456789abcdef0123456789abcdef";
  target = codes "a";
  temporary = staging;
  file_identity = [];
}

abbrev new_file : File
new_file = record {
  identity = codes "1:2";
  digest = codes "new";
  file_size = 3 ∷ [];
  regular = true;
}

abbrev old_file : File
old_file = record {
  identity = codes "1:1";
  digest = codes "old";
  file_size = 9 ∷ [];
  regular = true;
}

abbrev disk_1 : Disk
disk_1 = record {
  root = (codes "a", old_file) ∷ (staging, new_file) ∷ [];
  pending = some record_1;
  receipts = [];
}

abbrev upload_1 : Upload
upload_1 = record {
  body = record {
    ctx_done = false;
    read_error = none;
    complete = true;
    expected_size = some 3;
    size = 3;
    expected_hash = some (codes "new");
    hash = codes "new";
    status = 201;
    effect_committed = false;
  };
  target = codes "a";
  temporary = staging;
  is_closed = false;
  write_failed = false;
  receipt = some record_1;
}

-- The rename fails, and so does the removal of the temporary file.
abbrev rename_fails : Site → Bool
rename_fails rename_file = true
rename_fails remove_temporary = true
rename_fails _ = false

upload_1-IsUpload :
    IsUpload receipt_file base_name print_size upload_1 record_1 new_file (some old_file) disk_1
unfolding lookup equal has_prefix
upload_1-IsUpload = record {
  pending_is = refl;
  receipt_is = refl;
  receiving_is = refl;
  temporary_is = refl;
  no_terminal = refl;
  staged_file = refl;
  target_file = refl;
  apart = refl;
  named = refl;
  not_nil = refl;
  is_regular = refl;
  digest_is = refl;
  size_is = refl;
  expects_hash = refl;
  expected = 3;
  expects_size = refl;
  size_text = refl;
  old_differs = (refl, refl);
}

close-Recovers_example :
    Recovers receipt_file base_name print_size upload_1 record_1 new_file (some old_file) disk_1
    × All
        (Recovers receipt_file base_name print_size upload_1 record_1 new_file (some old_file))
        (close receipt_file rename_fails upload_1 new_file disk_1).states
close-Recovers_example =
    close-Recovers receipt_file base_name print_size upload_1 record_1 new_file (some old_file)
      rename_fails disk_1 upload_1-IsUpload
