-- ===== src/RunResults/Files.antt =====
-- How a collection reads the files of a result and of its Source (termroom/run_results.py).
use termroom.Prelude.{
  ℕ, ◌+◌, Bool, true, false, ◌&&◌, ◌||◌, not, Option, none, some, List, [], ◌∷◌, ◌++◌, Text,
  text_eq, is_empty, length, ltb, if◌then◌else◌,
}
use termroom.Prelude.Result.{Result, ok, err, ◌>>=◌, ◌>>◌, reject}
use termroom.Prelude.Posix.{dot, parent_stack}
use termroom.Prelude.Integers.{ℤ, pos}
use termroom.RunSources.Path.{normalize_source_relative_path}
use termroom.RunResults.Items.{
  Reason, source_path_unsupported, source_path_is_directory, source_changed_during_review,
  source_not_editable_text, Fault, missing_file, is_unsupported, Raised, result_read_invalid,
  result_changed, outside_raises, outside, sourced, FileEntry, FileSnapshot, same_int, over,
}

-- a piece of a download: bytes, or a value of another type
pub data Chunk : Type 0 where
  bytes : List ℕ → Chunk
  not_bytes : Chunk

-- what a read of a result file sees: the file before, the download with the exception that ends it, and
-- the file after
pub record Reading : Type 0 where
  pub before : Result Fault FileEntry
  pub chunks : List Chunk
  pub ending : Option Fault
  pub after : Result Fault FileEntry

-- `_require_same_file_entry`
abbrev pub same_file_entry : FileEntry → FileEntry → Bool
same_file_entry expected current =
    not current.is_dir
    && text_eq current.relative_path expected.relative_path
    && same_int current.size expected.size
    && same_int current.mtime_ns expected.mtime_ns

abbrev pub require_same_file_entry : FileEntry → FileEntry → Result Raised (Unit {0})
require_same_file_entry expected current =
    reject (not (same_file_entry expected current)) result_changed

-- the loop over the download
unfoldable pub receive : (size : ℤ) (total : ℕ) → List Chunk → Option Fault → Result Raised (List ℕ)
receive size total [] none = ok []
receive size total [] (some fault) = err (outside_raises fault)
receive size total (not_bytes ∷ chunks) ending = err result_read_invalid
receive size total (bytes b ∷ chunks) ending = do
  reject (over (total + length b) size) result_changed
  rest ← receive size (total + length b) chunks ending
  ok (b ++ rest)

-- `_read_stable_file`, with `_stream_stable_file`
unfoldable pub read_stable_file : FileEntry → Reading → Result Raised (List ℕ)
unfolding receive
read_stable_file entry reading = do
  before ← outside reading.before
  require_same_file_entry entry before
  raw ← receive entry.size 0 reading.chunks reading.ending
  after ← outside reading.after
  require_same_file_entry entry after
  reject (not (same_int (pos (length raw)) entry.size)) result_changed
  ok raw

-- `_source_relative_path`
unfoldable pub source_relative_path :
    (ℕ → Bool) → (source_path result_path : Text) → Result Raised Text
unfolding normalize_source_relative_path
source_relative_path is_alpha source_path result_path =
    if is_empty source_path || text_eq source_path dot
    then ok result_path
    else sourced
        (normalize_source_relative_path is_alpha false false (source_path ++ b'/' ∷ result_path))

-- the length of a text in UTF-8
abbrev pub utf8_size : ℕ → ℕ
utf8_size c = if ltb c 128 then 1 else if ltb c 2048 then 2 else if ltb c 65536 then 3 else 4

unfoldable pub utf8_length : Text → ℕ
utf8_length [] = 0
utf8_length (c ∷ s) = utf8_size c + utf8_length s

-- what a read of a Source file sees
pub record SourceView : Type 0 where
  pub before : Result Fault FileEntry
  pub text : Result Fault FileSnapshot
  pub after : Result Fault FileEntry

-- the Source file: missing, of no use, or read
pub data Current : Type 0 where
  absent : Current
  problem : Reason → Current
  present : FileSnapshot → Current

-- the exceptions of the second part
abbrev pub read_problem : Fault → Result Raised Current
read_problem missing_file = ok (problem source_changed_during_review)
read_problem fault =
    if is_unsupported fault
    then ok (problem source_not_editable_text)
    else err (outside_raises fault)

abbrev pub is_stable : FileEntry → FileSnapshot → FileEntry → Bool
is_stable before snapshot after =
    text_eq before.relative_path after.relative_path
    && same_int before.size after.size
    && same_int before.mtime_ns after.mtime_ns
    && same_int snapshot.mtime_ns before.mtime_ns
    && same_int (pos (utf8_length snapshot.content)) before.size

abbrev pub compared : FileEntry → FileSnapshot → Result Fault FileEntry → Result Raised Current
compared before snapshot (err fault) = read_problem fault
compared before snapshot (ok after) =
    if is_stable before snapshot after
    then ok (present snapshot)
    else ok (problem source_changed_during_review)

abbrev pub read_file :
    FileEntry → Result Fault FileSnapshot → Result Fault FileEntry → Result Raised Current
read_file before (err fault) after = read_problem fault
read_file before (ok snapshot) after = compared before snapshot after

abbrev pub seen_source : SourceView → Result Fault FileEntry → Result Raised Current
seen_source view (err missing_file) = ok absent
seen_source view (err fault) =
    if is_unsupported fault
    then ok (problem source_path_unsupported)
    else err (outside_raises fault)
seen_source view (ok before) =
    if before.is_dir
    then ok (problem source_path_is_directory)
    else read_file before view.text view.after

-- `_read_current_source`
unfoldable pub read_current_source :
    (ℕ → Bool) → (source_path result_path : Text) → SourceView → Result Raised Current
unfolding source_relative_path utf8_length
read_current_source is_alpha source_path result_path view = do
  relative ← source_relative_path is_alpha source_path result_path
  seen_source view view.before

-- the `except` clause and the answer of `_addition_parent_exists`
abbrev pub is_parent : Result Fault FileEntry → Result Raised Bool
is_parent (ok entry) = ok entry.is_dir
is_parent (err missing_file) = ok false
is_parent (err fault) = if is_unsupported fault then ok false else err (outside_raises fault)

-- `_addition_parent_exists`
unfoldable pub addition_parent_exists :
    (ℕ → Bool) → (source_path result_path : Text) → Result Fault FileEntry → Result Raised Bool
unfolding source_relative_path parent_stack
addition_parent_exists is_alpha source_path result_path parent = do
  relative ← source_relative_path is_alpha source_path result_path
  if is_empty (parent_stack relative) then ok true else is_parent parent
