-- ===== src/ArchiveSafety/Path.antt =====
-- `normalize_zip_member_path` and `validate_zip_filename` of termroom/archive_safety.py.
pub mod Normal
use termroom.Prelude.{
  ℕ, ◌/◌, Bool, false, ◌&&◌, ◌||◌, not, List, [], ◌∷◌, Text, codes, text_eq, contains, is_empty,
  leb, ◌==◌, if◌then◌else◌,
}
use termroom.Prelude.Result.{Result, ok, err, ◌>>=◌, ◌>>◌, reject}
use termroom.Prelude.Split.{any, has, split, join, starts_with}
unfoldable pub use termroom.Prelude.Posix.{is_control, is_surrogate}
pub use termroom.Prelude.Posix.{dot, dots, metadata}

-- the `code` of an `ArchiveSafetyError`
pub data ArchiveCode : Type 0 where
  zip_filename zip_extension zip_magic : ArchiveCode
  zip_path zip_path_control zip_path_backslash zip_path_absolute : ArchiveCode
  zip_path_traversal zip_path_metadata zip_path_encoding zip_path_limit : ArchiveCode
  zip_extra zip_special_entry zip_encrypted zip_type_mismatch : ArchiveCode
  zip_single_file_limit zip_total_limit zip_entry_limit zip_upload_limit : ArchiveCode
  zip_invalid zip_size_mismatch zip_crc zip_duplicate_path zip_path_conflict : ArchiveCode
  zip_member_changed zip_manifest : ArchiveCode

unfoldable pub is_letter : ℕ → Bool
is_letter c = (leb b'A' c && leb c b'Z') || (leb b'a' c && leb c b'z')

-- `_WINDOWS_DRIVE.match(name)`
unfoldable pub has_drive : Text → Bool
unfolding is_letter
has_drive (c ∷ d ∷ s) = is_letter c && d == b':'
has_drive _ = false

-- the loop over `raw_name.split("/")`
unfoldable pub collect_parts : List Text → Result ArchiveCode (List Text)
collect_parts [] = ok []
collect_parts (part ∷ rest) =
    let kept = collect_parts rest in
    if is_empty part || text_eq part dot
    then kept
    else if text_eq part dots
    then err zip_path_traversal
    else do parts ← kept; ok (part ∷ parts)

unfoldable pub normalize_zip_member_path : Text → Result ArchiveCode Text
unfolding has_drive collect_parts is_control is_surrogate
normalize_zip_member_path raw_name = do
  reject (is_empty raw_name) zip_path
  reject (any is_control raw_name) zip_path_control
  reject (has b'\\' raw_name) zip_path_backslash
  reject (starts_with raw_name (codes "/") || has_drive raw_name) zip_path_absolute
  parts ← collect_parts (split b'/' raw_name)
  reject (is_empty parts) zip_path
  reject (contains parts metadata) zip_path_metadata
  let normalized = join b'/' parts
  reject (any is_surrogate normalized) zip_path_encoding
  ok normalized

-- `value.casefold().endswith(".zip")`; the case folding of Unicode is `casefold`
unfoldable pub ends_with : Text → Text → Bool
ends_with [] suffix = text_eq [] suffix
ends_with (c ∷ s) suffix = text_eq (c ∷ s) suffix || ends_with s suffix

unfoldable pub validate_zip_filename : (Text → Text) → Text → Result ArchiveCode Text
unfolding is_control ends_with
validate_zip_filename casefold filename = do
  reject (is_empty filename || any is_control filename) zip_filename
  reject (not (ends_with (casefold filename) (codes ".zip"))) zip_extension
  ok filename
