-- ===== src/RunResults/Examples.antt =====
-- The results of a Run that changed one file, and the theorems at them.
use termroom.Prelude.{
  ℕ, true, false, none, some, List, [], ◌∷◌, Text, codes, text_eq, is_empty, if◌then◌else◌, ◌≡◌,
  ◌≢◌, refl,
}
use termroom.Prelude.Result.{Result, ok, err}
use termroom.Prelude.Split.{any, has, all_parts, split, starts_with}
use termroom.Prelude.Posix.{dot, segments}
use termroom.Prelude.Integers.{pos}
use termroom.RunSources.Workspace.{WorkspaceEntry, WorkspaceManifest}
use termroom.RunResults.Items.{
  result_matches_baseline, CollectionPlanItem, CollectionReportItem, Fault, missing_file, Raised,
  FileEntry, FileSnapshot,
}
use termroom.RunResults.Files.{bytes, Reading, SourceView}
use termroom.RunResults.Plan.{Codecs, Views, Run, Reviewed, digest_of, decide}
use termroom.RunResults.Build.{PlanBuild, changed_item_count, apply_allowed, build_plan}
use termroom.RunResults.Apply.{Write, write_existing, write_new, apply_locked}
use termroom.RunResults.Scan.{ListFault, scan_tree}
use termroom.Prelude.Lists.{All}
use termroom.RunSources.Workspace.{file}
use termroom.RunResults.Apply.Guarded.{IsGuarded, apply_locked-IsGuarded}
use termroom.RunResults.Apply.Answers.{paths_of, report_paths, apply-answers}
use termroom.RunResults.Merge.ThreeWay.{source_digest, sight, IsTold, decide-status}
use termroom.RunResults.Scan.Total.{scan_tree-some}
use termroom.RunResults.Scan.Listed.{IsListing, scan_tree-IsListing}

-- a text is its bytes, and its own digest
abbrev codecs : Codecs
codecs = record {
  is_alpha = λ c. false;
  casefold = λ t. t;
  decode = λ raw. some raw;
  file_digest = λ raw. raw;
}

abbrev notes : Text
notes = codes "notes.txt"

abbrev added_path : Text
added_path = codes "out.txt"

abbrev notes_entry : WorkspaceEntry
notes_entry = record {
  relative_path = notes;
  kind = file;
  size = pos 3;
  mtime_ns = pos 1;
  executable = false;
  link_target = none;
  digest = some (codes "old");
}

abbrev manifest : WorkspaceManifest
manifest = record { entries = notes_entry ∷ []; total_bytes = pos 3; excluded_prefixes = [] }

abbrev run : Run
run = record {
  is_workspace_source = true;
  baseline = some manifest;
  has_source_workspace = true;
  is_persistent = true;
  is_local = true;
  source_path = dot;
  max_edit_bytes = 1000;
}

abbrev entry_at : Text → FileEntry
entry_at path = record { relative_path = path; is_dir = false; size = pos 3; mtime_ns = pos 7 }

abbrev reading_of : Text → Reading
reading_of path = record {
  before = ok (entry_at path);
  chunks = bytes (codes "ne") ∷ bytes (codes "w") ∷ [];
  ending = none;
  after = ok (entry_at path);
}

abbrev old : FileSnapshot
old = record { content = codes "old"; digest = codes "old"; mtime_ns = pos 7 }

abbrev source_of : Text → SourceView
source_of path =
    if text_eq path notes
    then record { before = ok (entry_at path); text = ok old; after = ok (entry_at path) }
    else record { before = err missing_file; text = err missing_file; after = err missing_file }

abbrev views : Views
views = record { reading = reading_of; source = source_of; parent = λ path. err missing_file }

abbrev scanned : Result Raised (List FileEntry)
scanned = ok (entry_at notes ∷ entry_at added_path ∷ [])

abbrev revision_of : List CollectionPlanItem → Text
revision_of items = codes "revision"

abbrev built_of : Result Raised PlanBuild → PlanBuild
built_of (ok built) = built
built_of (err e) = record {
  plan = record { revision = []; items = [] };
  result_entries = [];
  current_snapshots = [];
}

abbrev built : PlanBuild
built = built_of (build_plan codecs revision_of run scanned views)

abbrev write : Write → Result Fault (Unit {0})
write w = ok tt

-- both files are taken, the old one under the condition that it has not changed
both_written :
    (apply_locked codecs run built reading_of write (codes "revision")).writes
    ≡ write_existing notes (codes "new") (record { digest = codes "old"; mtime_ns = pos 7 })
      ∷ write_new added_path (codes "new")
      ∷ []
unfolding build_plan apply_locked text_eq any has all_parts segments
both_written = refl

plan_built : build_plan codecs revision_of run scanned views ≡ ok built
unfolding build_plan text_eq any has all_parts segments
plan_built = refl

apply_locked-IsGuarded_example :
    All
      (IsGuarded codecs run manifest views built.plan.items)
      (apply_locked codecs run built reading_of write (codes "revision")).writes
apply_locked-IsGuarded_example =
    apply_locked-IsGuarded codecs revision_of run manifest scanned views built reading_of write
      (codes "revision") refl plan_built

has_revision : is_empty built.plan.revision ≡ false
unfolding build_plan text_eq any has all_parts segments
has_revision = refl

is_small : apply_allowed built.plan ≡ true
unfolding build_plan changed_item_count text_eq any has all_parts segments
is_small = refl

apply-answers_example :
    (reports : List CollectionReportItem) × ((apply_locked codecs run built reading_of write
        built.plan.revision).reports
      ≡ ok reports)
    × (report_paths reports ≡ paths_of built.plan.items)
apply-answers_example =
    apply-answers codecs revision_of run manifest scanned views built reading_of write refl
      plan_built has_revision is_small

decide-status_example :
    (reviewed : Reviewed) × (item : CollectionPlanItem) × (decide run notes
        (some notes_entry)
        (codes "new")
        (sight (some old))
        (ok true)
      ≡ ok reviewed)
    × (reviewed.item ≡ some item)
    × IsTold (digest_of (some notes_entry)) (source_digest (some old)) (codes "new") item.status
    × (item.reason ≢ result_matches_baseline)
decide-status_example = decide-status run notes (some notes_entry) (codes "new") (some old) refl

-- a directory with a file, beside a file
abbrev list_dir : Text → ℕ → Result ListFault (List FileEntry)
list_dir directory max_entries =
    if text_eq directory dot
    then ok (
        record { relative_path = codes "b"; is_dir = false; size = pos 4; mtime_ns = pos 1 }
        ∷ record { relative_path = codes "a"; is_dir = true; size = pos 0; mtime_ns = pos 1 }
        ∷ [])
    else ok (
        record { relative_path = codes "a/c"; is_dir = false; size = pos 5; mtime_ns = pos 1 } ∷ [])

abbrev listing : List FileEntry
listing =
    record { relative_path = codes "a"; is_dir = true; size = pos 0; mtime_ns = pos 1 }
    ∷ record { relative_path = codes "a/c"; is_dir = false; size = pos 5; mtime_ns = pos 1 }
    ∷ record { relative_path = codes "b"; is_dir = false; size = pos 4; mtime_ns = pos 1 }
    ∷ []

listing_scanned : scan_tree (λ c. false) 100 list_dir ≡ some (ok listing)
unfolding scan_tree text_eq any has starts_with all_parts split segments
listing_scanned = refl

scan_tree-IsListing_example : IsListing 100 listing
scan_tree-IsListing_example = scan_tree-IsListing (λ c. false) 100 list_dir listing listing_scanned

scan_tree-some_example :
    (r : Result Raised (List FileEntry)) × (scan_tree (λ c. false) 100 list_dir ≡ some r)
scan_tree-some_example = scan_tree-some (λ c. false) 100 list_dir
