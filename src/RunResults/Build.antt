-- ===== src/RunResults/Build.antt =====
-- A whole review, and what it is applied to (`_build_plan` and `apply` of termroom/run_results.py).
use termroom.Prelude.{
  ℕ, ◌+◌, Bool, true, false, ◌&&◌, ◌||◌, not, none, some, List, [], ◌∷◌, ◌++◌, Text, text_eq, leb,
  if◌then◌else◌,
}
use termroom.Prelude.Result.{Result, ok, err, ◌>>=◌, ◌>>◌, reject}
use termroom.ArchiveSafety.Manifest.{text_lt}
use termroom.RunSources.Workspace.{WorkspaceEntry, WorkspaceManifest, is_file}
use termroom.RunResults.Items.{
  already_result, skipped, deleted, unchanged, deletion_not_applied, CollectionPlanItem, Raised,
  source_collection_unsupported, collection_baseline_unavailable, source_workspace_unavailable,
  FileEntry, ExpectedSource,
}
use termroom.RunResults.Plan.{Codecs, Views, Run, bare_item}
use termroom.RunResults.Review.{Review, review_entries}

-- a dict of the entries by their paths, as the sorted list of its values: a later entry takes the place
-- of an earlier one
unfoldable pub put_entry : FileEntry → List FileEntry → List FileEntry
unfolding text_lt
put_entry e [] = e ∷ []
put_entry e (x ∷ xs) =
    let later = put_entry e xs in
    if text_eq x.relative_path e.relative_path
    then e ∷ xs
    else if text_lt x.relative_path e.relative_path
    then x ∷ later
    else e ∷ x ∷ xs

unfoldable pub put_entries : List FileEntry → List FileEntry → List FileEntry
unfolding put_entry
put_entries [] by_path = by_path
put_entries (e ∷ es) by_path = put_entries es (put_entry e by_path)

-- `path in result_paths`
unfoldable pub has_path : List FileEntry → Text → Bool
has_path [] path = false
has_path (e ∷ es) path = text_eq e.relative_path path || has_path es path

abbrev pub deletion : WorkspaceEntry → CollectionPlanItem
deletion e = bare_item e.relative_path deleted skipped deletion_not_applied e.digest

-- the second loop
unfoldable pub deletions : List FileEntry → List WorkspaceEntry → List CollectionPlanItem
unfolding has_path
deletions tree [] = []
deletions tree (e ∷ es) =
    let rest = deletions tree es in
    if is_file e.kind && not (has_path tree e.relative_path) then deletion e ∷ rest else rest

-- `sorted(items, key=lambda item: item.path)`
unfoldable pub insert_item : CollectionPlanItem → List CollectionPlanItem → List CollectionPlanItem
unfolding text_lt
insert_item e [] = e ∷ []
insert_item e (x ∷ xs) =
    let later = insert_item e xs in if text_lt x.path e.path then x ∷ later else e ∷ x ∷ xs

unfoldable pub ordered_items : List CollectionPlanItem → List CollectionPlanItem
unfolding insert_item
ordered_items [] = []
ordered_items (e ∷ es) = insert_item e (ordered_items es)

pub record CollectionPlan : Type 0 where
  pub revision : Text
  pub items : List CollectionPlanItem

-- `_PlanBuild`
pub record PlanBuild : Type 0 where
  pub plan : CollectionPlan
  pub result_entries : List FileEntry
  pub current_snapshots : List (Text × ExpectedSource)

-- `change != "unchanged" and status != "already_result"`
abbrev pub is_changed : CollectionPlanItem → Bool
is_changed item =
    not (elim item.change [ unchanged ↦ true | _ ↦ false ])
    && not (elim item.status [ already_result ↦ true | _ ↦ false ])

-- `changed_item_count`
unfoldable pub changed_item_count : List CollectionPlanItem → ℕ
changed_item_count [] = 0
changed_item_count (item ∷ items) = (if is_changed item then 1 else 0) + changed_item_count items

-- `MAX_COLLECTION_DISPLAY_ITEMS`
abbrev pub max_collection_display_items : ℕ
max_collection_display_items = 500

abbrev pub apply_allowed : CollectionPlan → Bool
apply_allowed plan = leb (changed_item_count plan.items) max_collection_display_items

-- `_plan_revision` is the fingerprint of the items, for a given Run
module _ (codecs : Codecs) (plan_revision : List CollectionPlanItem → Text) (run : Run) where
  abbrev pub planned : List FileEntry → WorkspaceManifest → Review → PlanBuild
  planned tree manifest review =
      let items = ordered_items (review.items ++ deletions tree manifest.entries) in
      record {
        plan = record { revision = plan_revision items; items = items };
        result_entries = put_entries tree [];
        current_snapshots = review.current_snapshots;
      }

  -- what `_build_plan` asks of the Run
  abbrev pub collectable : Result Raised WorkspaceManifest
  collectable = do
    reject (not run.is_workspace_source) source_collection_unsupported
    manifest ← elim run.baseline [
      | none ↦ err collection_baseline_unavailable
      | some manifest ↦ ok manifest
    ]
    reject (not (run.has_source_workspace && run.is_persistent)) source_workspace_unavailable
    ok manifest

  unfoldable pub build_plan : Result Raised (List FileEntry) → Views → Result Raised PlanBuild
  unfolding put_entries deletions ordered_items review_entries
  build_plan scanned views = do
    manifest ← collectable
    tree ← scanned
    review ← review_entries codecs run manifest views (put_entries tree [])
    ok (planned tree manifest review)
