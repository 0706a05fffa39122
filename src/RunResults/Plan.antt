-- ===== src/RunResults/Plan.antt =====
-- The review plan of a collection (`_build_plan` of termroom/run_results.py).
use termroom.Prelude.{
  ℕ, Bool, true, false, ◌||◌, not, Option, none, some, List, [], ◌∷◌, Text, text_eq, contains,
  is_some, ◌==◌, if◌then◌else◌,
}
use termroom.Prelude.Result.{Result, ok, err, ◌>>=◌}
use termroom.Prelude.Split.{split, starts_with}
use termroom.Prelude.Posix.{metadata}
use termroom.ArchiveSafety.Conflict.{below}
use termroom.RunSources.Workspace.{WorkspaceEntry, WorkspaceManifest, is_file}
use termroom.RunResults.Items.{
  PlanStatus, ready, already_result, conflict, skipped, PlanChange, modified, added, unchanged,
  Reason, source_matches_result, source_path_exists, source_parent_missing, new_local_text_file,
  new_remote_text_file, source_file_missing, source_changed_since_run, result_matches_baseline,
  source_unchanged_since_run, CollectionPlanItem, Fault, unsupported_file, Raised,
  collection_baseline_unavailable, outside_raises, FileEntry, FileSnapshot, ExpectedSource,
}
use termroom.RunResults.Files.{Reading, SourceView, Current, absent, problem, present}

-- the code that is not the program's: `str.isalpha` of one character, `str.casefold`, the decoding of
-- UTF-8, with nothing where it fails, and SHA-256 in hexadecimal digits
pub record Codecs : Type 0 where
  pub is_alpha : ℕ → Bool
  pub casefold : Text → Text
  pub decode : List ℕ → Option Text
  pub file_digest : List ℕ → Text

-- what a review sees of the files of a path: the result, the Source, and the parent in the Source
pub record Views : Type 0 where
  pub reading : Text → Reading
  pub source : Text → SourceView
  pub parent : Text → Result Fault FileEntry

-- the Run and its Workspaces, as far as a review reads them
pub record Run : Type 0 where
  pub is_workspace_source : Bool
  pub baseline : Option WorkspaceManifest
  pub has_source_workspace : Bool
  pub is_persistent : Bool
  pub is_local : Bool
  pub source_path : Text
  pub max_edit_bytes : ℕ

-- what a path adds to the plan: an item, and a snapshot of the Source
pub record Reviewed : Type 0 where
  pub item : Option CollectionPlanItem
  pub snapshot : Option ExpectedSource

abbrev pub nothing : Reviewed
nothing = record { item = none; snapshot = none }

abbrev pub just : CollectionPlanItem → Reviewed
just item = record { item = some item; snapshot = none }

abbrev pub first_entry : Option WorkspaceEntry → Option WorkspaceEntry → Option WorkspaceEntry
first_entry none e = e
first_entry (some e) _ = some e

-- `baseline_entries.get(path)`: a dict keeps the last entry of a path
unfoldable pub baseline_of : List WorkspaceEntry → Text → Option WorkspaceEntry
baseline_of [] path = none
baseline_of (e ∷ es) path =
    let later = baseline_of es path in
    first_entry later (if text_eq e.relative_path path then some e else none)

abbrev pub digest_of : Option WorkspaceEntry → Option Text
digest_of none = none
digest_of (some e) = e.digest

abbrev pub is_baseline_file : Option WorkspaceEntry → Bool
is_baseline_file none = false
is_baseline_file (some e) = is_file e.kind

-- an item without digests of the result and of the Source
abbrev pub bare_item : Text → PlanChange → PlanStatus → Reason → Option Text → CollectionPlanItem
bare_item path change status reason baseline_digest = record {
  path = path;
  change = change;
  status = status;
  reason = reason;
  baseline_digest = baseline_digest;
  result_digest = none;
  current_digest = none;
  current_mtime_ns = none;
}

-- `_skipped_item`
abbrev pub skipped_item : Text → Option WorkspaceEntry → Reason → CollectionPlanItem
skipped_item path baseline reason =
    bare_item path (if is_baseline_file baseline then modified else added) skipped reason
      (digest_of baseline)

-- `any(path == prefix or path.startswith(prefix + "/") for prefix in excluded_prefixes)`
unfoldable pub below_prefix : Text → List Text → Bool
below_prefix path [] = false
below_prefix path (prefix ∷ prefixes) =
    (text_eq path prefix || starts_with path (below prefix)) || below_prefix path prefixes

-- `_is_excluded_result_path`
unfoldable pub is_excluded_result_path : Text → List Text → Bool
unfolding contains split below_prefix
is_excluded_result_path path prefixes =
    contains (split b'/' path) metadata || below_prefix path prefixes

abbrev pub with_current : CollectionPlanItem → FileSnapshot → CollectionPlanItem
with_current item current = record item {
  current_digest = some current.digest;
  current_mtime_ns = some current.mtime_ns;
}

-- the result, the baseline and the Source compared; the Source is not a problem
module _ (run : Run) (path : Text) (baseline : Option WorkspaceEntry) (result_digest : Text) where
  abbrev pub result_item : PlanChange → PlanStatus → Reason → CollectionPlanItem
  result_item change status reason =
      record (bare_item path change status reason (digest_of baseline)) {
        result_digest = some result_digest;
      }

  -- without a baseline entry
  abbrev pub added_item : Option FileSnapshot → Bool → CollectionPlanItem
  added_item (some current) parent =
      with_current (result_item added conflict source_path_exists) current
  added_item none parent =
      if not parent
      then result_item added conflict source_parent_missing
      else result_item added ready
          (if run.is_local then new_local_text_file else new_remote_text_file)

  -- with the digest of the baseline entry
  abbrev pub modified_item : Option FileSnapshot → Text → CollectionPlanItem
  modified_item none digest = result_item modified conflict source_file_missing
  modified_item (some current) digest =
      with_current
        (if not (text_eq current.digest digest)
          then result_item modified conflict source_changed_since_run
          else if text_eq result_digest digest
          then result_item unchanged already_result result_matches_baseline
          else result_item modified ready source_unchanged_since_run)
        current

  abbrev pub matches_result : Option FileSnapshot → Bool
  matches_result none = false
  matches_result (some current) = text_eq current.digest result_digest

  abbrev pub expected_of : Option FileSnapshot → Option ExpectedSource
  expected_of none = none
  expected_of (some current) =
      some (record { digest = current.digest; mtime_ns = current.mtime_ns })

  abbrev pub reviewed : Option FileSnapshot → CollectionPlanItem → Reviewed
  reviewed current item = record { item = some item; snapshot = expected_of current }

  abbrev pub matching_item : Option FileSnapshot → CollectionPlanItem
  matching_item none = result_item unchanged already_result source_matches_result
  matching_item (some current) =
      with_current (result_item unchanged already_result source_matches_result) current

  abbrev pub parent_checked : Result Raised Bool → Result Raised Reviewed
  parent_checked parent = do exists ← parent; ok (reviewed none (added_item none exists))

  abbrev pub against_digest : Option FileSnapshot → Option Text → Result Raised Reviewed
  against_digest current none = err collection_baseline_unavailable
  against_digest current (some digest) = ok (reviewed current (modified_item current digest))

  abbrev pub against_baseline :
      Option WorkspaceEntry → Option FileSnapshot → Result Raised Bool → Result Raised Reviewed
  against_baseline none none parent = parent_checked parent
  against_baseline none (some current) parent =
      ok (reviewed (some current) (added_item (some current) true))
  against_baseline (some entry) current parent = against_digest current entry.digest

  unfoldable pub decide : Current → Result Raised Bool → Result Raised Reviewed
  decide (problem reason) parent =
      ok (just (result_item (if is_some baseline then modified else added) conflict reason))
  decide absent parent = against_baseline baseline none parent
  decide (present current) parent =
      if text_eq current.digest result_digest
      then ok (reviewed (some current) (matching_item (some current)))
      else against_baseline baseline (some current) parent

-- `UnsupportedFileError`
abbrev pub is_unsupported_result : Raised → Bool
is_unsupported_result (outside_raises unsupported_file) = true
is_unsupported_result _ = false

-- `b"\x00" in raw`
unfoldable pub has_nul : List ℕ → Bool
has_nul [] = false
has_nul (b ∷ bs) = b == 0 || has_nul bs
