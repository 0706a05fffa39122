-- ===== src/ArchiveSafety/Materialize.antt =====
-- `materialize_zip_archive` of termroom/archive_safety.py: what is asked of the sink, in order, and
-- how it ends. The sink is assumed to take every chunk that it is offered.
pub mod Directories
pub mod Complete
use termroom.Prelude.{
  ℕ, ◌+◌, ◌/◌, Bool, true, false, ◌&&◌, ◌||◌, not, Option, none, some, List, [], ◌∷◌, ◌++◌, map,
  Text, text_eq, ltb, ◌==◌, if◌then◌else◌,
}
use termroom.Prelude.Result.{Result, ok, err, ◌>>=◌, ◌>>◌, reject}
use termroom.Prelude.Split.{split}
use mathlib.Core.Option
use termroom.ArchiveSafety.Path.{ArchiveCode}
use termroom.ArchiveSafety.Entry.{ArchiveLimits, ZipInfo, ZipEntry, is_directory}
use termroom.ArchiveSafety.Conflict.{ancestors}
use termroom.ArchiveSafety.Path.{zip_upload_limit, zip_member_changed}
use termroom.ArchiveSafety.Structure.{validate_structure}
use termroom.ArchiveSafety.Structure.Sound.{Pairs, entries_of}
use termroom.ArchiveSafety.Manifest.{
  ZipManifest, text_lt, count_slashes, sorted_entries, validate_materialization_manifest,
}
use termroom.ArchiveSafety.Inflate.{Archive, raise_failure, check_magic, iter_info_chunks}

-- `<` on the key `(path.count("/"), path)`
unfoldable pub path_lt : Text → Text → Bool
unfolding text_lt count_slashes
path_lt a b =
    ltb (count_slashes a) (count_slashes b) || (count_slashes a == count_slashes b && text_lt a b)

-- a set of paths as the list that `sorted(..., key=...)` makes of it
unfoldable pub insert_path : Text → List Text → List Text
insert_path a [] = a ∷ []
insert_path a (b ∷ bs) =
    let later = insert_path a bs in
    if text_eq a b then b ∷ bs else if path_lt b a then b ∷ later else a ∷ b ∷ bs

unfoldable pub insert_paths : List Text → List Text → List Text
insert_paths [] bs = bs
insert_paths (a ∷ as') bs = insert_path a (insert_paths as' bs)

-- the paths that one entry adds: all above it, and its own if it is a directory
unfoldable pub directories_of : ZipEntry → List Text
directories_of e =
    let above = ancestors [] (split b'/' e.relative_path) in
    if is_directory e.kind then e.relative_path ∷ above else above

unfoldable pub required_directories : List ZipEntry → List Text
unfolding insert_path insert_paths directories_of
required_directories [] = []
required_directories (e ∷ es) = insert_paths (directories_of e) (required_directories es)

-- a call of the sink that came to its end
pub data SinkCall : Type 0 where
  make_directory : Text → SinkCall
  write_file : Text → ℕ → Bool → SinkCall

-- `infos[name]`, where of several records with one name the last is kept
unfoldable pub find_info : Text → Pairs → Option ZipInfo
find_info name [] = none
find_info name (p ∷ ps) = elim (find_info name ps) [
  | some info ↦ some info
  | none ↦ if text_eq p.1.archive_name name then some p.0 else none
]

-- calls that were made, and how it went on
abbrev pub Run : Type 0
Run = List SinkCall × Result ArchiveCode (Unit {0})

abbrev pub before : List SinkCall → Run → Run
before calls run = (calls ++ run.0, run.1)

unfoldable pub entry_eq : ZipEntry → ZipEntry → Bool
entry_eq a b =
    text_eq a.relative_path b.relative_path
    && (is_directory a.kind && is_directory b.kind
        || not (is_directory a.kind) && not (is_directory b.kind))
    && a.size == b.size
    && a.compressed_size == b.compressed_size
    && a.crc32 == b.crc32
    && (a.executable && b.executable || not a.executable && not b.executable)
    && text_eq a.archive_name b.archive_name

unfoldable pub entries_eq : List ZipEntry → List ZipEntry → Bool
entries_eq [] [] = true
entries_eq [] (b ∷ bs) = false
entries_eq (a ∷ as') [] = false
entries_eq (a ∷ as') (b ∷ bs) = entry_eq a b && entries_eq as' bs

module _ (crc32 : List ℕ → ℕ → ℕ) where
  -- the loop over the entries, with its variable `actual_total`; a missing name is a `KeyError`,
  -- which `ArchiveCode` has no code for: `none`
  unfoldable pub write_entries : Archive → ArchiveLimits → Pairs → ℕ → List ZipEntry → Option Run
  write_entries archive limits pairs actual_total [] = some ([], ok tt)
  write_entries archive limits pairs actual_total (e ∷ es) =
      let later = write_entries archive limits pairs actual_total es in
      let after = write_entries archive limits pairs (actual_total + e.size) es in
      if is_directory e.kind then later else elim (find_info e.archive_name pairs) [
        | none ↦ none
        | some info ↦ elim (iter_info_chunks crc32 (archive.read info) e limits actual_total) [
          | err code ↦ some ([], err code)
          | ok size ↦ Option.map (before (write_file e.relative_path size e.executable ∷ [])) after
        ]
      ]

  -- the checks between opening the archive and writing its first file
  unfoldable pub check_unchanged : Archive → ArchiveLimits → ZipManifest → Result ArchiveCode Pairs
  unfolding entries_eq entry_eq
  check_unchanged archive limits manifest = do
    reject (ltb limits.max_upload_bytes archive.archive_size) zip_upload_limit
    reject (not (archive.archive_size == manifest.archive_size)) zip_member_changed
    check_magic archive.magic
    raise_failure archive.open_failure
    checked ← validate_structure archive.infolist limits
    reject (not (entries_eq (sorted_entries (entries_of checked.0)) manifest.entries))
        zip_member_changed
    ok checked.0

  unfoldable pub write_files : Archive → ArchiveLimits → ZipManifest → Option Run
  unfolding write_entries
  write_files archive limits manifest = elim (check_unchanged archive limits manifest) [
    | err code ↦ some ([], err code)
    | ok pairs ↦ write_entries archive limits pairs 0 manifest.entries
  ]

  unfoldable pub materialize_zip_archive : Archive → ZipManifest → ArchiveLimits → Option Run
  unfolding write_files
  materialize_zip_archive archive manifest limits =
      elim (validate_materialization_manifest manifest limits) [
        | err code ↦ some ([], err code)
        | ok _ ↦
            Option.map (before (map make_directory (required_directories manifest.entries)))
              (write_files archive limits manifest)
      ]
