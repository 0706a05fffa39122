-- ===== src/RunSources/Symlink.antt =====
-- `validate_contained_symlink_target` of termroom/run_sources.py.
pub mod Depth
pub mod Contained
use termroom.Prelude.{
  ℕ, ◌/◌, Bool, false, ◌||◌, List, [], ◌∷◌, reverse, Text, codes, text_eq, is_empty, if◌then◌else◌,
}
use termroom.Prelude.Result.{Result, ok, err, ◌>>=◌, ◌>>◌, reject}
use termroom.Prelude.Split.{any, has, split, join, starts_with}
use termroom.Prelude.Posix.{is_control, dot, dots, metadata, parent_stack}
use termroom.RunSources.Path.{
  SourceCode, source_symlink_outside, source_symlink_metadata, normalize_source_relative_path,
}

-- one round of the loop; the stack has the last part first
unfoldable pub step : Text → List Text → Result SourceCode (List Text)
step part stack =
    if is_empty part || text_eq part dot
    then ok stack
    else if text_eq part dots
    then elim stack [ [] ↦ err source_symlink_outside | _ ∷ below ↦ ok below ]
    else if text_eq part metadata
    then err source_symlink_metadata
    else ok (part ∷ stack)

-- the loop over `target.split("/")`
unfoldable pub walk : List Text → List Text → Result SourceCode (List Text)
walk [] stack = ok stack
walk (part ∷ rest) stack = do next ← step part stack; walk rest next

-- where the link leads: the root of the Source, or a path that is checked again
unfoldable pub check_place : (ℕ → Bool) → Text → List Text → Result SourceCode Text
unfolding normalize_source_relative_path
check_place is_alpha target [] = ok target
check_place is_alpha target (p ∷ ps) = do
  contained ← normalize_source_relative_path is_alpha false false (join b'/' (reverse (p ∷ ps)))
  ok target

unfoldable pub validate_contained_symlink_target :
    (ℕ → Bool) → (link_path target : Text) → Result SourceCode Text
unfolding is_control walk check_place parent_stack normalize_source_relative_path
validate_contained_symlink_target is_alpha link_path target = do
  safe_link ← normalize_source_relative_path is_alpha false false link_path
  reject
      (is_empty target
        || any is_control target
        || has b'\\' target
        || starts_with target (codes "/"))
      source_symlink_outside
  stack ← walk (split b'/' target) (parent_stack safe_link)
  check_place is_alpha target stack
