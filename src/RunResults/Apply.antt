-- ===== src/RunResults/Apply.antt =====
-- Applying a reviewed plan (`_apply_locked` of termroom/run_results.py).
pub mod Guarded
pub mod Answers
use termroom.Prelude.{
  ◌+◌, Bool, true, false, ◌||◌, not, Option, none, some, List, [], ◌∷◌, ◌++◌, Text, text_eq,
  is_empty, if◌then◌else◌,
}
use termroom.Prelude.Result.{Result, ok, err, ◌>>=◌, ◌>>◌, reject}
use termroom.RunResults.Items.{
  PlanStatus, ready, already_result, conflict, skipped, PlanChange, modified, added, ApplyOutcome,
  applied, was_result, in_conflict, was_skipped, failed, Reason, result_changed_during_apply,
  source_changed_during_apply, apply_failed, was_applied, CollectionPlanItem, CollectionReportItem,
  Fault, other_fault, is_apply_conflict, Raised, plan_revision_mismatch,
  collection_too_many_changes, result_changed, outside_raises, FileEntry, ExpectedSource,
}
use termroom.RunResults.Files.{Reading, read_stable_file, source_relative_path}
use termroom.RunResults.Plan.{Codecs, Run, has_nul}
use termroom.RunResults.Build.{PlanBuild, changed_item_count, apply_allowed}

-- a conditional write of the Source: over the expected file, or of a new one
pub data Write : Type 0 where
  write_existing : (path content : Text) → ExpectedSource → Write
  write_new : (path content : Text) → Write

-- `built.result_entries.get(path)`
unfoldable pub entry_of : List FileEntry → Text → Option FileEntry
entry_of [] path = none
entry_of (e ∷ es) path = if text_eq e.relative_path path then some e else entry_of es path

-- `built.current_snapshots[path]`
unfoldable pub snapshot_of : List (Text × ExpectedSource) → Text → Option ExpectedSource
snapshot_of [] path = none
snapshot_of (s ∷ snapshots) path = if text_eq s.0 path then some s.1 else snapshot_of snapshots path

abbrev pub given_digest : Option Text → Text
given_digest none = []
given_digest (some digest) = digest

abbrev pub is_ready : PlanStatus → Bool
is_ready ready = true
is_ready _ = false

-- the outcome of an item that is not ready
abbrev pub outcome_of : PlanStatus → ApplyOutcome
outcome_of ready = failed
outcome_of already_result = was_result
outcome_of conflict = in_conflict
outcome_of skipped = was_skipped

abbrev pub reported : CollectionPlanItem → ApplyOutcome → Reason → CollectionReportItem
reported item outcome reason = record {
  path = item.path;
  change = item.change;
  outcome = outcome;
  reason = reason;
}

-- the `except` clauses of a write
abbrev pub failed_item : CollectionPlanItem → Raised → CollectionReportItem
failed_item item result_changed = reported item in_conflict result_changed_during_apply
failed_item item plan_revision_mismatch = reported item in_conflict result_changed_during_apply
failed_item item (outside_raises fault) =
    if is_apply_conflict fault
    then reported item in_conflict source_changed_during_apply
    else reported item failed apply_failed
failed_item item _ = reported item failed apply_failed

pub record Applied : Type 0 where
  pub writes : List Write
  pub report : CollectionReportItem

-- the reports, or what stops the loop, and the writes until then
pub record Outcome : Type 0 where
  pub writes : List Write
  pub reports : Result Raised (List CollectionReportItem)

module _ (codecs : Codecs) (run : Run) (built : PlanBuild) (readings : Text → Reading)
    (write : Write → Result Fault (Unit {0})) where
  abbrev pub decoded : Option Text → Result Raised Text
  decoded none = err result_changed
  decoded (some content) = ok content

  abbrev pub entry_content : FileEntry → Reading → (result_digest : Text) → Result Raised Text
  entry_content entry reading result_digest = do
    reject (entry.is_dir || is_empty result_digest) result_changed
    raw ← read_stable_file entry reading
    reject (not (text_eq (codecs.file_digest raw) result_digest) || has_nul raw) result_changed
    decoded (codecs.decode raw)

  -- `_ready_result_content`
  unfoldable pub ready_result_content : CollectionPlanItem → Result Raised Text
  unfolding entry_of read_stable_file has_nul
  ready_result_content item = elim (entry_of built.result_entries item.path) [
    | none ↦ err result_changed
    | some entry ↦ entry_content entry (readings item.path) (given_digest item.result_digest)
  ]

  abbrev pub over_snapshot : Text → Text → Option ExpectedSource → Result Raised Write
  over_snapshot relative content none = err (outside_raises other_fault)
  over_snapshot relative content (some current) = ok (write_existing relative content current)

  -- the write of an item; `KeyError` and `AssertionError` are other exceptions
  abbrev pub write_of : CollectionPlanItem → PlanChange → Text → Text → Result Raised Write
  write_of item modified relative content =
      over_snapshot relative content (snapshot_of built.current_snapshots item.path)
  write_of item added relative content = ok (write_new relative content)
  write_of item _ relative content = err (outside_raises other_fault)

  abbrev pub prepared : CollectionPlanItem → Text → Result Raised Write
  prepared item relative = do
    content ← ready_result_content item
    write_of item item.change relative content

  abbrev pub written : CollectionPlanItem → Result Fault (Unit {0}) → CollectionReportItem
  written item (ok done) = reported item applied was_applied
  written item (err fault) = failed_item item (outside_raises fault)

  -- the `try` statement
  abbrev pub attempted : CollectionPlanItem → Result Raised Write → Applied
  attempted item (err e) = record { writes = []; report = failed_item item e }
  attempted item (ok w) = record { writes = w ∷ []; report = written item (write w) }

  abbrev pub apply_ready : CollectionPlanItem → Text → Applied
  apply_ready item relative = attempted item (prepared item relative)

  abbrev pub and_then : Applied → Outcome → Outcome
  and_then a rest = record {
    writes = a.writes ++ rest.writes;
    reports = (do reports ← rest.reports; ok (a.report ∷ reports));
  }

  abbrev pub apply_item : CollectionPlanItem → Result Raised Text → Outcome → Outcome
  apply_item item (err e) rest = record { writes = []; reports = err e }
  apply_item item (ok relative) rest = and_then (apply_ready item relative) rest

  -- the loop over the items
  unfoldable pub apply_items : List CollectionPlanItem → Outcome
  unfolding ready_result_content snapshot_of source_relative_path
  apply_items [] = record { writes = []; reports = ok [] }
  apply_items (item ∷ items) =
      let rest = apply_items items in
      if is_ready item.status
      then apply_item item (source_relative_path codecs.is_alpha run.source_path item.path) rest
      else and_then
          (record { writes = []; report = reported item (outcome_of item.status) item.reason }) rest

  -- `_apply_locked`, behind the review
  unfoldable pub apply_locked : (revision : Text) → Outcome
  unfolding apply_items changed_item_count
  apply_locked revision =
      if is_empty revision || not (text_eq revision built.plan.revision)
      then record { writes = []; reports = err plan_revision_mismatch }
      else if not (apply_allowed built.plan)
      then record { writes = []; reports = err collection_too_many_changes }
      else apply_items built.plan.items
