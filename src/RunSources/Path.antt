-- ===== src/RunSources/Path.antt =====
-- `normalize_source_relative_path` and `validate_cwd_rel` of termroom/run_sources.py.
pub mod Strict
use termroom.Prelude.{
  ℕ, ◌/◌, Bool, true, false, ◌&&◌, ◌||◌, not, ◌∷◌, Text, codes, text_eq, contains, is_empty, ◌==◌,
  if◌then◌else◌,
}
use termroom.Prelude.Result.{Result, ok, ◌>>=◌, ◌>>◌, reject}
use termroom.Prelude.Split.{any, has, all_parts, split, starts_with}
use termroom.Prelude.Posix.{is_control, is_surrogate, dot, metadata, is_name}

-- the `code` of a `SourceValidationError`
pub data SourceCode : Type 0 where
  invalid_metadata source_path source_path_absolute source_path_traversal : SourceCode
  source_path_metadata source_path_encoding source_path_duplicate : SourceCode
  source_path_conflict source_entry_type source_entry_metadata : SourceCode
  source_entry_digest source_symlink_outside source_symlink_metadata : SourceCode
  source_symlink_target source_manifest_total source_file_changed : SourceCode
  git_url_required git_url_whitespace git_url_control git_url_invalid : SourceCode
  git_url_query git_url_fragment git_url_scheme git_url_host : SourceCode
  git_url_userinfo git_url_path git_clone_path : SourceCode

-- `_require_metadata_line`
unfoldable pub require_metadata_line : Text → Result SourceCode Text
unfolding is_control
require_metadata_line value = do
  reject (is_empty value || any is_control value) invalid_metadata
  ok value

-- a drive letter and a colon; the letters of Unicode are `is_alpha`
unfoldable pub has_drive : (ℕ → Bool) → Text → Bool
has_drive is_alpha (c ∷ d ∷ s) = is_alpha c && d == b':'
has_drive is_alpha _ = false

unfoldable pub normalize_source_relative_path :
    (is_alpha : ℕ → Bool) (allow_root allow_metadata : Bool) → Text → Result SourceCode Text
unfolding is_control is_surrogate has_drive
normalize_source_relative_path is_alpha allow_root allow_metadata value = do
  reject (is_empty value) source_path
  reject (any is_control value || has b'\\' value) source_path
  if text_eq value dot && allow_root then ok value else (do
    reject (starts_with value (codes "/") || has_drive is_alpha value) source_path_absolute
    reject (not (all_parts is_name (split b'/' value))) source_path_traversal
    reject (not allow_metadata && contains (split b'/' value) metadata) source_path_metadata
    reject (any is_surrogate value) source_path_encoding
    ok value)

unfoldable pub validate_cwd_rel : (ℕ → Bool) → Text → Result SourceCode Text
validate_cwd_rel is_alpha value = normalize_source_relative_path is_alpha true false value
