-- ===== src/RunResults/Scan.antt =====
-- Listing the tree of a result (`_scan_tree` of termroom/run_results.py).
pub mod Total
pub mod Tree
pub mod Loop
pub mod Listed
use termroom.Prelude.{
  ℕ, zero, suc, ◌+◌, ◌-◌, ◌/◌, Bool, true, false, ◌||◌, not, Option, none, some, List, [], ◌∷◌,
  reverse, Text, text_eq, is_empty, length, ltb, if◌then◌else◌,
}
use termroom.Prelude.Result.{Result, ok, err, ◌>>=◌, ◌>>◌, reject}
use termroom.Prelude.Split.{join}
use termroom.Prelude.Posix.{dot, parent_stack}
use termroom.RunResults.Items.{
  Fault, Raised, result_too_many_entries, result_path_duplicate, result_too_deep, result_too_large,
  result_metadata_invalid, result_path_invalid, outside_raises, FileEntry,
}
use termroom.RunResults.Files.{utf8_length}
use termroom.Prelude.Integers.{ℤ, pos, negsuc, is_negative}
use termroom.ArchiveSafety.Manifest.{text_lt}
use termroom.RunSources.Path.{SourceCode, normalize_source_relative_path}

-- `MAX_RESULT_ENTRIES`, `MAX_RESULT_DEPTH` and `MAX_RESULT_PATH_BYTES`
abbrev pub max_result_entries : ℕ
max_result_entries = 10000

abbrev pub max_result_depth : ℕ
max_result_depth = 64

abbrev pub max_result_path_bytes : ℕ
max_result_path_bytes = 4096

-- exceptions of a listing: `DirectoryListingLimitError`, and any other
pub data ListFault : Type 0 where
  listing_limit : ListFault
  list_raises : Fault → ListFault

-- `PurePosixPath(relative).parent.as_posix()`
unfoldable pub parent_of : Text → Text
unfolding parent_stack join
parent_of relative =
    let stack = parent_stack relative in if is_empty stack then dot else join b'/' (reverse stack)

-- `_validate_child_entry`
abbrev pub path_checked : Text → Result SourceCode Text → Result Raised Text
path_checked directory (err code) = err result_path_invalid
path_checked directory (ok relative) = do
  reject (ltb max_result_path_bytes (utf8_length relative)) result_path_invalid
  reject (not (text_eq (parent_of relative) directory)) result_path_invalid
  ok relative

unfoldable pub validate_child_entry : (ℕ → Bool) → Text → FileEntry → Result Raised Text
unfolding parent_of utf8_length normalize_source_relative_path
validate_child_entry is_alpha directory entry = do
  reject (is_negative entry.size || is_negative entry.mtime_ns) result_metadata_invalid
  path_checked directory (normalize_source_relative_path is_alpha false true entry.relative_path)

-- `pending`, the next directory first; `entries`, the newest first, whose paths are `seen`; `total_bytes`
pub record Scan : Type 0 where
  pub pending : List (Text × ℕ)
  pub entries : List FileEntry
  pub total_bytes : ℕ

abbrev pub bytes_of : ℤ → ℕ
bytes_of (pos n) = n
bytes_of (negsuc n) = 0

-- `relative in seen`
unfoldable pub is_seen : List FileEntry → Text → Bool
is_seen [] path = false
is_seen (e ∷ es) path = text_eq e.relative_path path || is_seen es path

-- one round over the children of a directory
unfoldable pub add_child :
    (is_alpha : ℕ → Bool) (max_archive_bytes : ℕ) (directory : Text) (depth : ℕ)
    → FileEntry
    → Scan
    → Result Raised Scan
unfolding validate_child_entry is_seen
add_child is_alpha max_archive_bytes directory depth entry s = do
  relative ← validate_child_entry is_alpha directory entry
  reject (is_seen s.entries relative) result_path_duplicate
  reject (ltb max_result_entries (suc (length s.entries))) result_too_many_entries
  let entries = record entry { relative_path = relative } ∷ s.entries
  if entry.is_dir
      then (do
        reject (ltb max_result_depth (suc depth)) result_too_deep
        ok (record s { pending = (relative, suc depth) ∷ s.pending; entries = entries }))
      else (do
        let total_bytes = s.total_bytes + bytes_of entry.size
        reject (ltb max_archive_bytes total_bytes) result_too_large
        ok (record s { entries = entries; total_bytes = total_bytes }))

unfoldable pub add_children :
    (is_alpha : ℕ → Bool) (max_archive_bytes : ℕ) (directory : Text) (depth : ℕ)
    → List FileEntry
    → Scan
    → Result Raised Scan
unfolding add_child
add_children is_alpha max_archive_bytes directory depth [] s = ok s
add_children is_alpha max_archive_bytes directory depth (entry ∷ children) s = do
  t ← add_child is_alpha max_archive_bytes directory depth entry s
  add_children is_alpha max_archive_bytes directory depth children t

-- what a listing gives
abbrev pub listed : Result ListFault (List FileEntry) → Result Raised (List FileEntry)
listed (ok children) = ok children
listed (err listing_limit) = err result_too_many_entries
listed (err (list_raises fault)) = err (outside_raises fault)

-- `list_dir` takes a directory and `max_entries`
module _ (is_alpha : ℕ → Bool) (max_archive_bytes : ℕ)
    (list_dir : Text → ℕ → Result ListFault (List FileEntry)) where
  abbrev pub scan_directory : Text × ℕ → Scan → Result Raised Scan
  scan_directory d s = do
    children ← listed (list_dir d.0 (max_result_entries - length s.entries))
    add_children is_alpha max_archive_bytes d.0 d.1 children s

  -- the loop, on fuel: nothing if the fuel runs out
  abbrev pub continued :
      (Scan → Option (Result Raised Scan)) → Result Raised Scan → Option (Result Raised Scan)
  continued more (err e) = some (err e)
  continued more (ok s) = more s

  unfoldable pub scan_pending : (fuel : ℕ) → Scan → Option (Result Raised Scan)
  unfolding add_children
  scan_pending zero s = none
  scan_pending (suc fuel) s = elim s.pending [
    | [] ↦ some (ok s)
    | d ∷ rest ↦ continued (scan_pending fuel) (scan_directory d (record s { pending = rest }))
  ]

  abbrev pub first_scan : Scan
  first_scan = record { pending = (dot, 0) ∷ []; entries = []; total_bytes = 0 }

-- `entries.sort(key=lambda item: item.relative_path)`
unfoldable pub insert_file : FileEntry → List FileEntry → List FileEntry
unfolding text_lt
insert_file e [] = e ∷ []
insert_file e (x ∷ xs) =
    let later = insert_file e xs in
    if text_lt x.relative_path e.relative_path then x ∷ later else e ∷ x ∷ xs

unfoldable pub sorted_files : List FileEntry → List FileEntry
unfolding insert_file
sorted_files [] = []
sorted_files (e ∷ es) = insert_file e (sorted_files es)

abbrev pub sorted_scan : Option (Result Raised Scan) → Option (Result Raised (List FileEntry))
sorted_scan none = none
sorted_scan (some (err e)) = some (err e)
sorted_scan (some (ok s)) = some (ok (sorted_files s.entries))

-- `_scan_tree`
unfoldable pub scan_tree :
    (is_alpha : ℕ → Bool) (max_archive_bytes : ℕ)
    (list_dir : Text → ℕ → Result ListFault (List FileEntry))
    → Option (Result Raised (List FileEntry))
unfolding scan_pending sorted_files
scan_tree is_alpha max_archive_bytes list_dir = sorted_scan (
    scan_pending is_alpha max_archive_bytes list_dir (max_result_entries + 2)
      (first_scan is_alpha max_archive_bytes list_dir))
