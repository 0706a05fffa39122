-- ===== src/RunSources/Remote.antt =====
-- `_validate_absolute_remote_path` and `_validate_fixed_path` of termroom/run_sources.py.
pub mod Absolute
pub mod Shape
use termroom.Prelude.{◌/◌, Bool, ◌&&◌, ◌||◌, not, Text, codes, text_eq, is_empty}
use termroom.Prelude.Result.{Result, ok, ◌>>=◌, ◌>>◌, reject}
use termroom.Prelude.Split.{has, all_parts, split, starts_with}
use termroom.Prelude.Posix.{dot, dots, as_posix}
use termroom.RunSources.Path.{SourceCode, git_clone_path, require_metadata_line}

-- a part that is neither `.` nor `..`
abbrev pub is_literal : Text → Bool
is_literal p = not (text_eq p dot || text_eq p dots)

unfoldable pub validate_absolute_remote_path : Text → Result SourceCode Text
unfolding require_metadata_line as_posix
validate_absolute_remote_path value = do
  line ← require_metadata_line value
  reject (has b'\\' value || not (starts_with value (codes "/"))) git_clone_path
  let normalized = as_posix value
  reject
      (not (text_eq normalized value)
        || text_eq normalized (codes "/")
        || not (all_parts is_literal (split b'/' value)))
      git_clone_path
  ok normalized

-- a directory of `PATH`
abbrev pub is_search_directory : Text → Bool
is_search_directory component =
    starts_with component (codes "/")
    && text_eq (as_posix component) component
    && all_parts is_literal (split b'/' component)

unfoldable pub validate_fixed_path : Text → Result SourceCode Text
unfolding require_metadata_line as_posix
validate_fixed_path value = do
  line ← require_metadata_line value
  reject (is_empty (split b':' value) || not (all_parts is_search_directory (split b':' value)))
      git_clone_path
  ok value
