-- ===== src/Vosk/Download.antt =====
-- The download of the models (internal/vosk/download.go). What is outside: the listing of the
-- repository, how each transfer ends, the creation of the directory of all models, and the division
-- of floating-point numbers that makes a progress. Only the sizes of files are kept.
pub mod Files
pub mod Complete
use go_live_transcription.Prelude.{
  ℕ, ◌+◌, String, Bool, true, false, not, Option, none, some, List, [], ◌∷◌, ◌++◌, if◌then◌else◌,
  nat_eq, keep_if, length, Result, ok, err,
}
use go_live_transcription.Prelude.Int.{ℤ, pos, negsuc}
use go_live_transcription.GoMap.{GoMap, lookup, insert, delete}

-- `hfEntry`, of a file.
pub record HfEntry : Type 0 where
  pub path : String
  pub size : ℕ

pub data ListError : Type 0 where
  no_request not_reached malformed : ListError
  denied : ℕ → ListError

-- The repository below a directory as its API gives it: the answer to the request for the directory,
-- with the answer for each directory in it. Entries that are neither are passed over.
mutual
  pub data Listing : Type 0 where
    fails : ListError → Listing
    lists : Entries → Listing

  pub data Entries : Type 0 where
    no_entries : Entries
    file : HfEntry → Entries → Entries
    directory : Listing → Entries → Entries
    other : Entries → Entries

-- The files of a directory's entry, before those of the entries behind it.
abbrev pub with_files :
    Result ListError (List HfEntry)
    → Result ListError (List HfEntry)
    → Result ListError (List HfEntry)
with_files (err e) rest = err e
with_files (ok files) (err e) = err e
with_files (ok files) (ok rest) = ok (files ++ rest)

unfoldable mutual
  pub list_all_files : Listing → Result ListError (List HfEntry)
  list_all_files (fails e) = err e
  list_all_files (lists entries) = list_entries entries

  -- The loop over the entries.
  pub list_entries : Entries → Result ListError (List HfEntry)
  list_entries no_entries = ok []
  list_entries (file f rest) = with_files (ok (f ∷ [])) (list_entries rest)
  list_entries (directory sub rest) = with_files (list_all_files sub) (list_entries rest)
  list_entries (other rest) = list_entries rest

-- The files of the storage directory with their sizes, by their path in it.
abbrev pub Disk : Type 0
Disk = GoMap ℕ

abbrev pub temp : String → String
temp path = Prim.Native.String.◌++◌ path ".tmp"

-- How the transfer of a file goes: where it fails, or the number of bytes that arrive.
pub data Transfer : Type 0 where
  no_directory no_request no_answer no_temp_file copy_fails rename_fails : Transfer
  bad_status : ℕ → Transfer
  arrives : ℕ → Transfer

-- `downloadFile`: the disk, and whether the file was stored.
unfoldable pub download_file : Transfer → String → Disk → Disk × Bool
download_file no_directory path disk = (disk, false)
download_file no_request path disk = (disk, false)
download_file no_answer path disk = (disk, false)
download_file (bad_status n) path disk = (disk, false)
download_file no_temp_file path disk = (disk, false)
download_file copy_fails path disk = (delete (temp path) disk, false)
download_file rename_fails path disk = (delete (temp path) disk, false)
download_file (arrives size) path disk = (insert path size (delete (temp path) disk), true)

pub data DownloadError : Type 0 where
  no_storage : DownloadError
  list_fails : ListError → DownloadError
  file_fails : String → Transfer → DownloadError

-- How a download ends: its error, the disk, and the progresses that it has reported.
pub record Download : Type 0 where
  pub error : Option DownloadError
  pub disk : Disk
  pub reports : List ℤ

-- Whether a file is there with its size.
unfoldable pub has_size : Option ℕ → ℕ → Bool
has_size none size = false
has_size (some found) size = nat_eq found size

unfoldable pub is_stored : Disk → HfEntry → Bool
unfolding has_size
is_stored disk f = has_size (lookup f.path disk) f.size

-- The files that are not there with their size.
abbrev pub missing : Disk → List HfEntry → List HfEntry
missing disk files = keep_if (λ f. not (is_stored disk f)) files

abbrev pub last_report : Option DownloadError → ℤ
last_report none = pos 100
last_report (some e) = negsuc 0

module _ (progress : ℕ → ℕ → ℤ) where
  -- What a round of the loop makes of the result of `downloadFile` and of the rounds behind it.
  unfoldable pub download_round : Disk × Bool → Transfer → String → ℤ → (Disk → Download) → Download
  download_round (disk, true) t path now rest =
      let end = rest disk in record end { reports = now ∷ end.reports }
  download_round (disk, false) t path now rest = record {
    error = some (file_fails path t);
    disk = disk;
    reports = now ∷ [];
  }

  -- The loop, from round `i` on. Whether a progress is received makes no difference.
  unfoldable pub download_each : (String → Transfer) → ℕ → ℕ → List HfEntry → Disk → Download
  unfolding download_round download_file
  download_each transfers i total [] disk = record { error = none; disk = disk; reports = [] }
  download_each transfers i total (f ∷ files) disk =
      let t = transfers f.path in
      download_round (download_file t f.path disk) t f.path (progress i total)
        (download_each transfers (i + 1) total files)

  unfoldable pub download_listed :
      Result ListError (List HfEntry) → (String → Transfer) → Disk → Download
  unfolding download_each
  download_listed (err e) transfers disk = record {
    error = some (list_fails e);
    disk = disk;
    reports = [];
  }
  download_listed (ok files) transfers disk =
      let todo = missing disk files in download_each transfers 0 (length todo) todo disk

  -- `DownloadModels`, from whether the storage directory can be made.
  unfoldable pub download_models : Bool → Listing → (String → Transfer) → Disk → Download
  unfolding download_listed list_all_files
  download_models false listing transfers disk = record {
    error = some no_storage;
    disk = disk;
    reports = [];
  }
  download_models true listing transfers disk =
      download_listed (list_all_files listing) transfers disk

  -- The goroutine of `Init` (internal/handlers/handlers.go): the download with the last report, which is
  -- -1 for an error and 100 at the end.
  unfoldable pub init_download : Bool → Listing → (String → Transfer) → Disk → Download
  unfolding download_models
  init_download made listing transfers disk =
      let end = download_models made listing transfers disk in
      record end { reports = end.reports ++ last_report end.error ∷ [] }
