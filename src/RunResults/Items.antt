-- ===== src/RunResults/Items.antt =====
-- What a collection of results reads and says (termroom/run_results.py, termroom/files.py).
use termroom.Prelude.{ℕ, Bool, true, false, Option, Text, ltb, ◌==◌}
use termroom.Prelude.Result.{Result, ok, err}
use termroom.Prelude.Integers.{ℤ, pos, negsuc}
use termroom.RunSources.Path.{SourceCode}

-- `PlanStatus`
pub data PlanStatus : Type 0 where
  ready already_result conflict skipped : PlanStatus

-- `PlanChange`
pub data PlanChange : Type 0 where
  modified added deleted unchanged unsupported : PlanChange

-- `ApplyOutcome`
pub data ApplyOutcome : Type 0 where
  applied was_result in_conflict was_skipped failed : ApplyOutcome

-- the reasons of the items of a plan and of a report
pub data Reason : Type 0 where
  excluded_new_path result_type_conflict file_too_large unsupported_result_type : Reason
  binary_result non_utf8_result baseline_type_conflict source_matches_result : Reason
  source_path_exists source_parent_missing new_local_text_file new_remote_text_file : Reason
  source_file_missing source_changed_since_run result_matches_baseline : Reason
  source_unchanged_since_run deletion_not_applied source_path_unsupported : Reason
  source_path_is_directory source_changed_during_review source_not_editable_text : Reason
  result_changed_during_apply source_changed_during_apply apply_failed was_applied : Reason

pub record CollectionPlanItem : Type 0 where
  pub path : Text
  pub change : PlanChange
  pub status : PlanStatus
  pub reason : Reason
  pub baseline_digest : Option Text
  pub result_digest : Option Text
  pub current_digest : Option Text
  pub current_mtime_ns : Option ℤ

pub record CollectionReportItem : Type 0 where
  pub path : Text
  pub change : PlanChange
  pub outcome : ApplyOutcome
  pub reason : Reason

-- exceptions of the files and of the remote access: `UnsupportedFileError`, `FileNotFoundError`,
-- `NotADirectoryError`, `PathBoundaryError`, `FileConflictError`, `FileExistsError`; any other
pub data Fault : Type 0 where
  unsupported_file missing_file not_directory path_boundary : Fault
  file_conflict file_exists other_fault : Fault

-- `_SOURCE_UNSUPPORTED_EXCEPTIONS`
abbrev pub is_unsupported : Fault → Bool
is_unsupported unsupported_file = true
is_unsupported not_directory = true
is_unsupported path_boundary = true
is_unsupported _ = false

-- `_APPLY_CONFLICT_EXCEPTIONS`
abbrev pub is_apply_conflict : Fault → Bool
is_apply_conflict other_fault = false
is_apply_conflict _ = true

-- the `code` of a `ResultCollectionError`; `result_changed` and `plan_revision_mismatch` are those of a
-- `ResultCollectionConflict`
pub data Raised : Type 0 where
  source_collection_unsupported collection_baseline_unavailable : Raised
  source_workspace_unavailable result_read_invalid result_changed : Raised
  plan_revision_mismatch collection_too_many_changes : Raised
  result_too_many_entries result_path_duplicate result_too_deep result_too_large : Raised
  result_metadata_invalid result_path_invalid : Raised
  source_raises : SourceCode → Raised
  outside_raises : Fault → Raised

-- an exception of another module
abbrev pub outside : {A : Type 0} → Result Fault A → Result Raised A
outside (ok a) = ok a
outside (err fault) = err (outside_raises fault)

abbrev pub sourced : {A : Type 0} → Result SourceCode A → Result Raised A
sourced (ok a) = ok a
sourced (err code) = err (source_raises code)

pub record FileEntry : Type 0 where
  pub relative_path : Text
  pub is_dir : Bool
  pub size : ℤ
  pub mtime_ns : ℤ

pub record FileSnapshot : Type 0 where
  pub content : Text
  pub digest : Text
  pub mtime_ns : ℤ

-- `_ExpectedSource`
pub record ExpectedSource : Type 0 where
  pub digest : Text
  pub mtime_ns : ℤ

-- equality of integers
abbrev pub same_int : ℤ → ℤ → Bool
same_int (pos a) (pos b) = a == b
same_int (negsuc a) (negsuc b) = a == b
same_int _ _ = false

-- `a > b`
abbrev pub exceeds : ℤ → ℕ → Bool
exceeds (pos a) b = ltb b a
exceeds (negsuc a) b = false

abbrev pub over : ℕ → ℤ → Bool
over a (pos b) = ltb b a
over a (negsuc b) = true
