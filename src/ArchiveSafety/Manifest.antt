-- ===== src/ArchiveSafety/Manifest.antt =====
-- `_cwd_rel` and `_validate_materialization_manifest` of termroom/archive_safety.py, and the order in
-- which `validate_zip_archive` lists the entries.
pub mod Sorted
pub mod Accepts
pub mod WorkDir
use termroom.Prelude.{
  ℕ, ◌+◌, ◌/◌, Bool, true, false, ◌&&◌, ◌||◌, not, List, [], ◌∷◌, Text, codes, text_eq, is_empty,
  length, is_some, ltb, ◌==◌, if◌then◌else◌,
}
use termroom.Prelude.Result.{Result, ok, ◌>>=◌, ◌>>◌, reject}
use termroom.Prelude.Split.{split, starts_with}
use termroom.ArchiveSafety.Path.{
  ArchiveCode, zip_total_limit, zip_duplicate_path, zip_path_conflict, zip_manifest,
  zip_single_file_limit, normalize_zip_member_path,
}
use termroom.ArchiveSafety.Entry.{ArchiveLimits, ZipEntry, is_directory}
use termroom.ArchiveSafety.Conflict.{lookup, below, nested_below_file, has_child}

pub record ZipManifest : Type 0 where
  pub entries : List ZipEntry
  pub total_bytes : ℕ
  pub cwd_rel : Text
  pub archive_size : ℕ

-- `path.split("/", 1)[0]`
abbrev pub head_part : List Text → Text
head_part [] = []
head_part (p ∷ _) = p

abbrev pub top_level : Text → Text
top_level path = head_part (split b'/' path)

-- `len(top_levels) == 1`, for the top level of the first entry
unfoldable pub all_in : Text → List ZipEntry → Bool
all_in top [] = true
all_in top (e ∷ es) = text_eq (top_level e.relative_path) top && all_in top es

-- the entry shows that `top` is a directory
abbrev pub shows_directory : Text → ZipEntry → Bool
shows_directory top e =
    (text_eq e.relative_path top && is_directory e.kind) || starts_with e.relative_path (below top)

unfoldable pub any_shows : Text → List ZipEntry → Bool
any_shows top [] = false
any_shows top (e ∷ es) = shows_directory top e || any_shows top es

unfoldable pub cwd_rel : List ZipEntry → Text
unfolding all_in any_shows
cwd_rel [] = codes "."
cwd_rel (e ∷ es) =
    let top = top_level e.relative_path in
    if not (all_in top (e ∷ es))
    then codes "."
    else if any_shows top (e ∷ es)
    then top
    else codes "."

-- the loop over `manifest.entries`, with its variables `by_path` and `total`
unfoldable pub validate_entries :
    ArchiveLimits → List ZipEntry → ℕ → List ZipEntry → Result ArchiveCode ℕ
validate_entries limits by_path total [] = ok total
validate_entries limits by_path total (e ∷ es) = do
  path ← normalize_zip_member_path e.relative_path
  reject (not (text_eq path e.relative_path)) zip_manifest
  reject (is_empty e.archive_name) zip_manifest
  reject (is_directory e.kind && (not (e.size == 0) || e.executable)) zip_manifest
  reject (not (is_directory e.kind) && ltb limits.max_single_file_bytes e.size)
      zip_single_file_limit
  reject (is_some (lookup by_path path)) zip_duplicate_path
  reject (nested_below_file by_path path) zip_path_conflict
  reject (not (is_directory e.kind) && has_child by_path path) zip_path_conflict
  reject (ltb limits.max_total_bytes (total + e.size)) zip_total_limit
  validate_entries limits (e ∷ by_path) (total + e.size) es

unfoldable pub validate_materialization_manifest :
    ZipManifest → ArchiveLimits → Result ArchiveCode (Unit {0})
unfolding validate_entries
validate_materialization_manifest manifest limits = do
  reject (ltb limits.max_upload_bytes manifest.archive_size) zip_manifest
  reject (ltb limits.max_entries (length manifest.entries)) zip_manifest
  total ← validate_entries limits [] 0 manifest.entries
  reject
      (not (total == manifest.total_bytes)
        || not (text_eq (cwd_rel manifest.entries) manifest.cwd_rel))
      zip_manifest

-- `<` on `str`
unfoldable pub text_lt : Text → Text → Bool
text_lt [] [] = false
text_lt [] (d ∷ t) = true
text_lt (c ∷ s) [] = false
text_lt (c ∷ s) (d ∷ t) = ltb c d || (c == d && text_lt s t)

-- `path.count("/")`
unfoldable pub count_slashes : Text → ℕ
count_slashes [] = 0
count_slashes (c ∷ s) = (if c == b'/' then 1 else 0) + count_slashes s

-- `<` on the sort key `(path.count("/"), kind != "directory", path)`
unfoldable pub key_lt : ZipEntry → ZipEntry → Bool
unfolding text_lt count_slashes
key_lt a b =
    let m = count_slashes a.relative_path in
    let n = count_slashes b.relative_path in
    ltb m n
    || (m == n
        && ((is_directory a.kind && not (is_directory b.kind))
            || ((is_directory a.kind || not (is_directory b.kind))
                && text_lt a.relative_path b.relative_path)))

unfoldable pub insert_entry : ZipEntry → List ZipEntry → List ZipEntry
insert_entry e [] = e ∷ []
insert_entry e (x ∷ xs) = if key_lt x e then x ∷ insert_entry e xs else e ∷ x ∷ xs

-- `sorted(entries, key=...)`
unfoldable pub sorted_entries : List ZipEntry → List ZipEntry
unfolding insert_entry
sorted_entries [] = []
sorted_entries (e ∷ es) = insert_entry e (sorted_entries es)
