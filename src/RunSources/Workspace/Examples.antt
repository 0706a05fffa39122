-- ===== src/RunSources/Workspace/Examples.antt =====
-- A Workspace with a directory, a file and a link to it (termroom/run_sources.py).
use termroom.Prelude.{
  true, false, none, some, [], ◌∷◌, ◌++◌, Text, codes, text_eq, contains, ◌≡◌, refl,
}
use termroom.Prelude.Result.{ok}
use termroom.Prelude.Split.{any, has, all_parts, split, join, starts_with}
use termroom.Prelude.Posix.{is_control, is_surrogate, segments, parent_stack}
use termroom.ArchiveSafety.Path.{is_letter}
use termroom.ArchiveSafety.Manifest.{text_lt}
use termroom.RunSources.Path.{has_drive, normalize_source_relative_path}
use termroom.RunSources.Symlink.{step, walk, check_place, validate_contained_symlink_target}
use termroom.Prelude.Integers.{pos, ◌+ℤ◌}
use termroom.ArchiveSafety.Conflict.{ancestors}
use termroom.ArchiveSafety.Manifest.{count_slashes}
use termroom.RunSources.Workspace.{
  WorkspaceEntry, WorkspaceManifest, file, directory, symlink, lookup, check_target,
  canonical_entry, collect_entries, any_in_way, has_below, check_conflicts, key_lt, insert_entry,
  ordered, insert_prefix, collect_prefixes, total_bytes, build_workspace_manifest,
}
use termroom.Prelude.Lists.{All}
use termroom.RunSources.Workspace.Listed.{IsListed}
use termroom.RunSources.Workspace.Built.{IsFlat, file_bytes, build-IsListed}
use termroom.RunSources.Exclude.{any_part, in_excluded_directory}

abbrev source_file : Text
source_file = codes "src/main.py"

abbrev same : Text → Text
same s = s

abbrev folder : WorkspaceEntry
folder = record {
  relative_path = codes "src";
  kind = directory;
  size = pos 0;
  mtime_ns = pos 5;
  executable = false;
  link_target = none;
  digest = none;
}

abbrev program : WorkspaceEntry
program = record {
  relative_path = source_file;
  kind = file;
  size = pos 3;
  mtime_ns = pos 7;
  executable = true;
  link_target = none;
  digest = none;
}

abbrev shortcut : WorkspaceEntry
shortcut = record {
  relative_path = codes "run";
  kind = symlink;
  size = pos 0;
  mtime_ns = pos 9;
  executable = false;
  link_target = some source_file;
  digest = none;
}

abbrev manifest : WorkspaceManifest
manifest = record {
  entries = folder ∷ shortcut ∷ program ∷ [];
  total_bytes = pos 3;
  excluded_prefixes = codes ".git" ∷ [];
}

manifest_ok :
    build_workspace_manifest is_letter same (program ∷ shortcut ∷ folder ∷ []) (codes ".git" ∷ [])
    ≡ ok manifest
unfolding build_workspace_manifest collect_entries canonical_entry lookup check_target
    check_conflicts any_in_way has_below ancestors ordered insert_entry key_lt count_slashes text_lt
    collect_prefixes insert_prefix total_bytes ◌+ℤ◌ validate_contained_symlink_target walk step
    check_place parent_stack segments normalize_source_relative_path has_drive is_letter is_control
    is_surrogate any has split join starts_with all_parts contains text_eq
manifest_ok = refl

build-IsListed_example :
    All IsListed manifest.entries
    × All (λ e. All (IsFlat e) manifest.entries) manifest.entries
    × (manifest.total_bytes ≡ pos (file_bytes manifest.entries))
build-IsListed_example =
    build-IsListed is_letter same (program ∷ shortcut ∷ folder ∷ []) (codes ".git" ∷ []) manifest
      manifest_ok

abbrev repository : Text
repository = codes "lib/.git"

repository_inside : in_excluded_directory (split b'/' repository) ≡ true
unfolding any_part split contains text_eq
repository_inside = refl

repository_file :
    normalize_source_relative_path is_letter false false (repository ++ b'/' ∷ codes "config")
    ≡ ok (codes "lib/.git/config")
unfolding normalize_source_relative_path has_drive is_letter is_control is_surrogate any has split
    starts_with all_parts contains text_eq
repository_file = refl
