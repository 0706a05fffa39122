-- ===== src/ArchiveSafety/Structure.antt =====
-- `_validate_structure` of termroom/archive_safety.py: the entries of a ZIP's central directory.
pub mod Sound
use termroom.Prelude.{ℕ, ◌+◌, ◌&&◌, not, List, [], ◌∷◌, length, is_some, ltb}
use termroom.Prelude.Result.{Result, ok, ◌>>=◌, ◌>>◌, reject}
use termroom.ArchiveSafety.Path.{
  ArchiveCode, zip_entry_limit, zip_total_limit, zip_duplicate_path, zip_path_conflict,
}
use termroom.ArchiveSafety.Entry.{ArchiveLimits, ZipInfo, ZipEntry, is_directory, entry_from_info}
use termroom.ArchiveSafety.Conflict.{lookup, nested_below_file, has_child}

-- the loop; `by_path` and `declared_total` are its variables, and `pairs` is what it returns
unfoldable pub validate_infos :
    ArchiveLimits
    → List ZipEntry
    → ℕ
    → List ZipInfo
    → Result ArchiveCode (List (ZipInfo × ZipEntry) × ℕ)
validate_infos limits by_path declared_total [] = ok ([], declared_total)
validate_infos limits by_path declared_total (info ∷ infos) = do
  entry ← entry_from_info info limits
  reject (is_some (lookup by_path entry.relative_path)) zip_duplicate_path
  reject (nested_below_file by_path entry.relative_path) zip_path_conflict
  reject (not (is_directory entry.kind) && has_child by_path entry.relative_path) zip_path_conflict
  reject (ltb limits.max_total_bytes (declared_total + entry.size)) zip_total_limit
  rest ← validate_infos limits (entry ∷ by_path) (declared_total + entry.size) infos
  ok ((info, entry) ∷ rest.0, rest.1)

unfoldable pub validate_structure :
    List ZipInfo → ArchiveLimits → Result ArchiveCode (List (ZipInfo × ZipEntry) × ℕ)
unfolding validate_infos
validate_structure infos limits = do
  reject (ltb limits.max_entries (length infos)) zip_entry_limit
  validate_infos limits [] 0 infos
