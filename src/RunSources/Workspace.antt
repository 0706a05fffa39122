-- ===== src/RunSources/Workspace.antt =====
-- `build_workspace_manifest` and the exclusion rules of termroom/run_sources.py.
pub mod Canonical
pub mod Listed
pub mod Built
mod Examples
use termroom.Prelude.{
  ℕ, ◌+◌, ◌/◌, Bool, true, false, ◌&&◌, ◌||◌, not, Option, none, some, List, [], ◌∷◌, Text, text_eq,
  length, is_some, ltb, leb, ◌==◌, if◌then◌else◌,
}
use termroom.Prelude.Result.{Result, ok, err, ◌>>=◌, ◌>>◌, reject}
use termroom.Prelude.Split.{any, split, starts_with}
use termroom.Prelude.Integers.{ℤ, pos, ◌+ℤ◌, is_negative}
use termroom.ArchiveSafety.Conflict.{below, ancestors}
use termroom.ArchiveSafety.Manifest.{text_lt, count_slashes}
use termroom.RunSources.Path.{
  SourceCode, source_entry_type, source_path_duplicate, source_entry_metadata, source_entry_digest,
  source_symlink_target, source_path_conflict, normalize_source_relative_path,
}
use termroom.RunSources.Symlink.{validate_contained_symlink_target}

-- `WorkspaceEntryKind`, and any other text that stands where one is due
pub data WorkspaceEntryKind : Type 0 where
  file directory symlink : WorkspaceEntryKind
  other : Text → WorkspaceEntryKind

pub record WorkspaceEntry : Type 0 where
  pub relative_path : Text
  pub kind : WorkspaceEntryKind
  pub size : ℤ
  pub mtime_ns : ℤ
  pub executable : Bool
  pub link_target : Option Text
  pub digest : Option Text

pub record WorkspaceManifest : Type 0 where
  pub entries : List WorkspaceEntry
  pub total_bytes : ℤ
  pub excluded_prefixes : List Text

abbrev pub is_file : WorkspaceEntryKind → Bool
is_file file = true
is_file _ = false

abbrev pub is_directory : WorkspaceEntryKind → Bool
is_directory directory = true
is_directory _ = false

abbrev pub is_symlink : WorkspaceEntryKind → Bool
is_symlink symlink = true
is_symlink _ = false

abbrev pub is_other : WorkspaceEntryKind → Bool
is_other (other kind) = true
is_other _ = false

-- a character of a SHA-256 in lower case
abbrev pub is_hex : ℕ → Bool
is_hex c = (leb b'0' c && leb c b'9') || (leb b'a' c && leb c b'f')

abbrev pub is_bad_digest : Option Text → Bool
is_bad_digest none = false
is_bad_digest (some d) = not (length d == 64) || any (λ c. not (is_hex c)) d

-- `by_path`, the newest entry first
unfoldable pub lookup : List WorkspaceEntry → Text → Option WorkspaceEntry
lookup [] path = none
lookup (e ∷ es) path = if text_eq e.relative_path path then some e else lookup es path

-- the test of the link target
unfoldable pub check_target : (ℕ → Bool) → WorkspaceEntry → Text → Result SourceCode Text
unfolding validate_contained_symlink_target
check_target is_alpha entry path =
    if is_symlink entry.kind
    then elim entry.link_target [
      | none ↦ err source_symlink_target
      | some target ↦ validate_contained_symlink_target is_alpha path target
    ]
    else if is_some entry.link_target
    then err source_entry_metadata
    else ok path

-- `entry.digest.casefold() if isinstance(entry.digest, str) else None`
abbrev pub folded : (Text → Text) → Option Text → Option Text
folded casefold none = none
folded casefold (some d) = some (casefold d)

-- one round of the first loop
unfoldable pub canonical_entry :
    (is_alpha : ℕ → Bool) (casefold : Text → Text)
    → List WorkspaceEntry
    → WorkspaceEntry
    → Result SourceCode WorkspaceEntry
unfolding normalize_source_relative_path lookup check_target
canonical_entry is_alpha casefold by_path entry = do
  path ← normalize_source_relative_path is_alpha false false entry.relative_path
  reject (is_other entry.kind) source_entry_type
  reject (is_some (lookup by_path path)) source_path_duplicate
  reject (is_negative entry.size || is_negative entry.mtime_ns) source_entry_metadata
  let digest = folded casefold entry.digest
  reject (is_some digest && (not (is_file entry.kind) || is_bad_digest digest)) source_entry_digest
  checked ← check_target is_alpha entry path
  ok (record entry {
    relative_path = path;
    size = if is_file entry.kind then entry.size else pos 0;
    executable = if is_file entry.kind then entry.executable else false;
    digest = if is_file entry.kind then digest else none;
  })

-- the first loop
unfoldable pub collect_entries :
    (is_alpha : ℕ → Bool) (casefold : Text → Text)
    → List WorkspaceEntry
    → List WorkspaceEntry
    → Result SourceCode (List WorkspaceEntry)
unfolding canonical_entry
collect_entries is_alpha casefold by_path [] = ok by_path
collect_entries is_alpha casefold by_path (entry ∷ rest) = do
  canonical ← canonical_entry is_alpha casefold by_path entry
  collect_entries is_alpha casefold (canonical ∷ by_path) rest

-- `ancestor is not None and ancestor.kind != "directory"`
abbrev pub stands_in_way : Option WorkspaceEntry → Bool
stands_in_way none = false
stands_in_way (some e) = not (is_directory e.kind)

unfoldable pub any_in_way : List WorkspaceEntry → List Text → Bool
any_in_way by_path [] = false
any_in_way by_path (path ∷ paths) = stands_in_way (lookup by_path path) || any_in_way by_path paths

-- `any(candidate.startswith(path + "/") for candidate in by_path)`
unfoldable pub has_below : List WorkspaceEntry → Text → Bool
has_below [] path = false
has_below (e ∷ es) path = starts_with e.relative_path (below path) || has_below es path

-- the second loop; every conflict has the same code
unfoldable pub check_conflicts :
    List WorkspaceEntry → List WorkspaceEntry → Result SourceCode (Unit {0})
unfolding any_in_way has_below ancestors
check_conflicts by_path [] = ok tt
check_conflicts by_path (entry ∷ rest) = do
  reject (any_in_way by_path (ancestors [] (split b'/' entry.relative_path))) source_path_conflict
  reject (not (is_directory entry.kind) && has_below by_path entry.relative_path)
      source_path_conflict
  check_conflicts by_path rest

-- `<` on the sort key `(path.count("/"), kind != "directory", path)`
unfoldable pub key_lt : WorkspaceEntry → WorkspaceEntry → Bool
unfolding text_lt count_slashes
key_lt a b =
    let m = count_slashes a.relative_path in
    let n = count_slashes b.relative_path in
    ltb m n
    || (m == n
        && ((is_directory a.kind && not (is_directory b.kind))
            || ((is_directory a.kind || not (is_directory b.kind))
                && text_lt a.relative_path b.relative_path)))

unfoldable pub insert_entry : WorkspaceEntry → List WorkspaceEntry → List WorkspaceEntry
insert_entry e [] = e ∷ []
insert_entry e (x ∷ xs) =
    let later = insert_entry e xs in if key_lt x e then x ∷ later else e ∷ x ∷ xs

-- `sorted(by_path.values(), key=...)`
unfoldable pub ordered : List WorkspaceEntry → List WorkspaceEntry
unfolding insert_entry
ordered [] = []
ordered (e ∷ es) = insert_entry e (ordered es)

-- a set of prefixes, sorted
unfoldable pub insert_prefix : Text → List Text → List Text
unfolding text_lt
insert_prefix p [] = p ∷ []
insert_prefix p (q ∷ qs) =
    let later = insert_prefix p qs in
    if text_eq q p then q ∷ qs else if text_lt q p then q ∷ later else p ∷ q ∷ qs

unfoldable pub collect_prefixes : (ℕ → Bool) → List Text → Result SourceCode (List Text)
unfolding normalize_source_relative_path insert_prefix
collect_prefixes is_alpha [] = ok []
collect_prefixes is_alpha (prefix ∷ prefixes) = do
  path ← normalize_source_relative_path is_alpha false true prefix
  rest ← collect_prefixes is_alpha prefixes
  ok (insert_prefix path rest)

-- `sum(entry.size for entry in ordered if entry.kind == "file")`
unfoldable pub total_bytes : List WorkspaceEntry → ℤ
unfolding ◌+ℤ◌
total_bytes [] = pos 0
total_bytes (e ∷ es) = let rest = total_bytes es in if is_file e.kind then e.size +ℤ rest else rest

unfoldable pub build_workspace_manifest :
    (is_alpha : ℕ → Bool) (casefold : Text → Text)
    → (entries : List WorkspaceEntry) (excluded_prefixes : List Text)
    → Result SourceCode WorkspaceManifest
unfolding collect_entries check_conflicts ordered collect_prefixes total_bytes
build_workspace_manifest is_alpha casefold entries excluded_prefixes = do
  by_path ← collect_entries is_alpha casefold [] entries
  checked ← check_conflicts by_path by_path
  prefixes ← collect_prefixes is_alpha excluded_prefixes
  ok (record {
    entries = ordered by_path;
    total_bytes = total_bytes (ordered by_path);
    excluded_prefixes = prefixes;
  })
