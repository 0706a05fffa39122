-- ===== src/ArchiveSafety/Conflict.antt =====
-- The conflict tests between the entries of one archive (termroom/archive_safety.py), which
-- `_validate_structure` and `_validate_materialization_manifest` share.
pub mod Separate
pub mod Complete
use termroom.Prelude.{
  ◌+◌, ◌/◌, Bool, false, ◌||◌, not, Option, none, some, List, [], ◌∷◌, ◌++◌, Text, text_eq,
  if◌then◌else◌,
}
use termroom.Prelude.Result.{◌>>=◌, ◌>>◌}
use termroom.Prelude.Split.{split, join, starts_with}
use termroom.ArchiveSafety.Entry.{ZipEntry, is_directory}

-- `by_path`: the entries so far, the newest first, each under its `relative_path`; no path is ever
-- stored twice
unfoldable pub lookup : List ZipEntry → Text → Option ZipEntry
lookup [] path = none
lookup (e ∷ es) path = if text_eq e.relative_path path then some e else lookup es path

abbrev pub below : Text → Text
below path = path ++ b'/' ∷ []

-- `"/".join(parts[:index])` for `index in range(1, len(parts))`; `done` is what was taken already
unfoldable pub ancestors : List Text → List Text → List Text
ancestors done (p ∷ q ∷ ps) = join b'/' (done ++ p ∷ []) ∷ ancestors (done ++ p ∷ []) (q ∷ ps)
ancestors done _ = []

-- `ancestor is not None and ancestor.kind != "directory"`
abbrev pub is_file : Option ZipEntry → Bool
is_file none = false
is_file (some e) = not (is_directory e.kind)

unfoldable pub any_file : List ZipEntry → List Text → Bool
any_file by_path [] = false
any_file by_path (path ∷ paths) = is_file (lookup by_path path) || any_file by_path paths

unfoldable pub nested_below_file : List ZipEntry → Text → Bool
unfolding any_file ancestors
nested_below_file by_path path = any_file by_path (ancestors [] (split b'/' path))

-- `any(candidate.startswith(path + "/") for candidate in by_path)`
unfoldable pub has_child : List ZipEntry → Text → Bool
has_child [] path = false
has_child (e ∷ es) path = starts_with e.relative_path (below path) || has_child es path
