-- ===== src/RunResults/Review.antt =====
-- The rounds of a review over the tree of a result (`_build_plan` of termroom/run_results.py).
use termroom.Prelude.{
  ℕ, Bool, false, ◌&&◌, not, Option, none, some, List, [], ◌∷◌, Text, is_some, if◌then◌else◌,
}
use termroom.Prelude.Result.{Result, ok, err, ◌>>=◌}
use termroom.RunSources.Workspace.{WorkspaceEntry, WorkspaceManifest}
use termroom.RunSources.Exclude.{is_default_workspace_excluded}
use termroom.RunResults.Items.{
  conflict, skipped, added, unsupported, excluded_new_path, result_type_conflict, file_too_large,
  unsupported_result_type, binary_result, non_utf8_result, baseline_type_conflict,
  CollectionPlanItem, Raised, sourced, FileEntry, ExpectedSource, exceeds,
}
use termroom.RunResults.Files.{read_stable_file, read_current_source, addition_parent_exists}
use termroom.RunResults.Plan.{
  Codecs, Reviewed, Run, Views, bare_item, baseline_of, decide, digest_of, has_nul,
  is_baseline_file, is_excluded_result_path, is_unsupported_result, just, nothing, skipped_item,
}

-- `items` and `current_snapshots`
pub record Review : Type 0 where
  pub items : List CollectionPlanItem
  pub current_snapshots : List (Text × ExpectedSource)

abbrev pub add_item : Option CollectionPlanItem → List CollectionPlanItem → List CollectionPlanItem
add_item none items = items
add_item (some item) items = item ∷ items

abbrev pub add_snapshot :
    Text → Option ExpectedSource → List (Text × ExpectedSource) → List (Text × ExpectedSource)
add_snapshot path none snapshots = snapshots
add_snapshot path (some snapshot) snapshots = (path, snapshot) ∷ snapshots

module _ (codecs : Codecs) (run : Run) (manifest : WorkspaceManifest) (views : Views) where
  -- the part of a round behind the exclusions: the Source is read and compared
  unfoldable pub review_source :
      Text → Option WorkspaceEntry → (result_digest : Text) → Result Raised Reviewed
  unfolding decide read_current_source addition_parent_exists
  review_source path baseline result_digest = do
    current ← read_current_source codecs.is_alpha run.source_path path (views.source path)
    decide run path baseline result_digest current
        (addition_parent_exists codecs.is_alpha run.source_path path (views.parent path))

  abbrev pub unless_excluded :
      Text → Option WorkspaceEntry → (result_digest : Text) → Bool → Result Raised Reviewed
  unless_excluded path baseline result_digest excluded =
      if excluded
      then ok (
          just (record (bare_item path added skipped excluded_new_path none) {
            result_digest = some result_digest;
          }))
      else review_source path baseline result_digest

  abbrev pub is_excluded : Text → Option WorkspaceEntry → Result Raised Bool
  is_excluded path (some entry) = ok false
  is_excluded path none =
      sourced (is_default_workspace_excluded codecs.is_alpha codecs.casefold path)

  -- the part behind the digest of the result
  unfoldable pub review_text :
      Text → Option WorkspaceEntry → (result_digest : Text) → Result Raised Reviewed
  unfolding review_source is_default_workspace_excluded
  review_text path baseline result_digest =
      if is_some baseline && not (is_baseline_file baseline)
      then ok (
          just (record (bare_item path unsupported conflict baseline_type_conflict none) {
            result_digest = some result_digest;
          }))
      else (do
        excluded ← is_excluded path baseline
        unless_excluded path baseline result_digest excluded)

  -- the part behind the read of the result
  abbrev pub review_raw :
      Text → Option WorkspaceEntry → Result Raised (List ℕ) → Result Raised Reviewed
  review_raw path baseline (err e) =
      if is_unsupported_result e
      then ok (just (skipped_item path baseline unsupported_result_type))
      else err e
  review_raw path baseline (ok raw) =
      if has_nul raw
      then ok (just (skipped_item path baseline binary_result))
      else if not (is_some (codecs.decode raw))
      then ok (just (skipped_item path baseline non_utf8_result))
      else review_text path baseline (codecs.file_digest raw)

  -- one round of the first loop
  unfoldable pub review_entry : FileEntry → Result Raised Reviewed
  unfolding baseline_of is_excluded_result_path read_stable_file has_nul review_text
  review_entry entry =
      let path = entry.relative_path in
      let baseline = baseline_of manifest.entries path in
      if is_excluded_result_path path manifest.excluded_prefixes
      then ok
          (if entry.is_dir then nothing else just (skipped_item path baseline excluded_new_path))
      else if entry.is_dir
      then ok (
          if is_baseline_file baseline
          then just (bare_item path unsupported conflict result_type_conflict (digest_of baseline))
          else nothing)
      else if exceeds entry.size run.max_edit_bytes
      then ok (just (skipped_item path baseline file_too_large))
      else review_raw path baseline (read_stable_file entry (views.reading path))

  -- the first loop
  unfoldable pub review_entries : List FileEntry → Result Raised Review
  unfolding review_entry
  review_entries [] = ok (record { items = []; current_snapshots = [] })
  review_entries (entry ∷ entries) = do
    reviewed ← review_entry entry
    rest ← review_entries entries
    ok (record {
      items = add_item reviewed.item rest.items;
      current_snapshots = add_snapshot entry.relative_path reviewed.snapshot rest.current_snapshots;
    })
