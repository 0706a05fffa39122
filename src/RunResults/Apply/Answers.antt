-- ===== src/RunResults/Apply/Answers.antt =====
-- An apply reports on every item of the plan (`_apply_locked` of termroom/run_results.py).
use termroom.Prelude.{
  Bool, true, false, some, List, [], ◌∷◌, map, Text, text_eq_refl, is_empty, if◌then◌else◌, ◌≡◌,
  refl, ap, arith,
}
use termroom.Prelude.Result.{Result, ok, err, ◌>>=◌, bind-eq-ok}
use termroom.RunSources.Workspace.{WorkspaceManifest}
use termroom.RunResults.Items.{
  CollectionPlanItem, CollectionReportItem, Fault, Raised, outside_raises, FileEntry,
}
use termroom.RunResults.Files.{Reading, source_relative_path, Current, read_current_source}
use termroom.RunResults.Plan.{Codecs, Views, Run}
use termroom.RunResults.Build.{PlanBuild, apply_allowed, build_plan}
use termroom.RunResults.Apply.{
  Write, is_ready, outcome_of, reported, failed_item, prepared, written, Applied, attempted,
  apply_ready, Outcome, and_then, apply_item, apply_items, apply_locked,
}
use termroom.RunResults.Ready.{Sees, IsBacked, build_plan-All}
use termroom.Prelude.Lists.{All}

abbrev pub paths_of : List CollectionPlanItem → List Text
paths_of items = map (λ item. item.path) items

abbrev pub report_paths : List CollectionReportItem → List Text
report_paths reports = map (λ report. report.path) reports

path-failed_item : (item : CollectionPlanItem) (e : Raised) → (failed_item item e).path ≡ item.path
path-failed_item item e = ground arith

module _ (codecs : Codecs) (run : Run) (manifest : WorkspaceManifest) (views : Views)
    (built : PlanBuild) (readings : Text → Reading) (write : Write → Result Fault (Unit {0})) where
  path-written :
      (item : CollectionPlanItem) (done : Result Fault (Unit {0}))
      → (written codecs run built readings write item done).path ≡ item.path
  path-written item (ok done) = refl
  path-written item (err fault) = path-failed_item item (outside_raises fault)

  path-attempted :
      (item : CollectionPlanItem) (x : Result Raised Write)
      → (attempted codecs run built readings write item x).report.path ≡ item.path
  path-attempted item (err e) = path-failed_item item e
  path-attempted item (ok w) = path-written item (write w)

  -- the outcome has a report for each of the items
  abbrev Answers : Outcome → List CollectionPlanItem → Type 0
  Answers outcome items =
      (reports : List CollectionReportItem) × (outcome.reports ≡ ok reports)
      × (report_paths reports ≡ paths_of items)

  and_then-Answers :
      (a : Applied) (rest : Outcome) (item : CollectionPlanItem) (items : List CollectionPlanItem)
      → a.report.path ≡ item.path
      → Answers rest items
      → Answers (and_then codecs run built readings write a rest) (item ∷ items)
  and_then-Answers a rest item items e h =
      (a.report ∷ h.0, ap (λ r. r >>= λ reports. ok (a.report ∷ reports)) h.1, cons_path e h.2)
    where
      cons_path : {p q : Text} {ps qs : List Text} → p ≡ q → ps ≡ qs → p ∷ ps ≡ q ∷ qs
      cons_path x y = cc

  apply_item-Answers :
      (item : CollectionPlanItem) (x : Result Raised Text) (rest : Outcome)
      (items : List CollectionPlanItem) (relative : Text)
      → x ≡ ok relative
      → Answers rest items
      → Answers (apply_item codecs run built readings write item x rest) (item ∷ items)
  apply_item-Answers item (err e) rest items relative q h = cc
  apply_item-Answers item (ok p) rest items relative q h =
      and_then-Answers (apply_ready codecs run built readings write item p) rest item items
        (path-attempted item (prepared codecs run built readings write item p)) h

  choose-Answers :
      (b : Bool) (m k : Outcome) (items : List CollectionPlanItem)
      → (b ≡ true → Answers m items)
      → Answers k items
      → Answers (if b then m else k) items
  choose-Answers true m k items h g = h refl
  choose-Answers false m k items h g = g

  -- the place of a reviewed path in the Source is known
  relative_of :
      (path : Text) (current : Current)
      → Sees codecs run manifest views path current
      → (relative : Text) × (source_relative_path codecs.is_alpha run.source_path path
          ≡ ok relative)
  unfolding read_current_source
  relative_of path current h =
      let v = bind-eq-ok (source_relative_path codecs.is_alpha run.source_path path) _ h in
      (v.0, v.1)

  apply_items-Answers :
      (items : List CollectionPlanItem)
      → All (IsBacked codecs run manifest views) items
      → Answers (apply_items codecs run built readings write items) items
  unfolding apply_items
  apply_items-Answers [] a = ([], refl, refl)
  apply_items-Answers (item ∷ items) a =
      let rest = apply_items codecs run built readings write items in
      let h = apply_items-Answers items a.1 in
      choose-Answers (is_ready item.status) _ _ (item ∷ items)
        (λ y.
          let v = a.0 y in
          let w = relative_of item.path v.0 v.1 in apply_item-Answers item _ rest items w.0 w.1 h)
        (and_then-Answers
          (record { writes = []; report = reported item (outcome_of item.status) item.reason }) rest
          item items refl h)

-- An apply of the revision that the review gave, if the plan is small enough, returns one report for each
-- item of the plan, in its order, however the reads and writes end: no exception stops it midway.
pub apply-answers :
    (codecs : Codecs) (plan_revision : List CollectionPlanItem → Text) (run : Run)
    (manifest : WorkspaceManifest) (scanned : Result Raised (List FileEntry)) (views : Views)
    (built : PlanBuild) (readings : Text → Reading) (write : Write → Result Fault (Unit {0}))
    → run.baseline ≡ some manifest
    → build_plan codecs plan_revision run scanned views ≡ ok built
    → is_empty built.plan.revision ≡ false
    → apply_allowed built.plan ≡ true
    → (reports : List CollectionReportItem) × ((apply_locked codecs run built readings write
          built.plan.revision).reports
        ≡ ok reports)
      × (report_paths reports ≡ paths_of built.plan.items)
unfolding apply_locked
apply-answers codecs plan_revision run manifest scanned views built readings write e h n a =
    let v = build_plan-All codecs run manifest views plan_revision scanned built e h in
    let w =
      apply_items-Answers codecs run manifest views built readings write built.plan.items v.0 in
    (w.0, ground (arith, n, a, text_eq_refl built.plan.revision, w.1), w.2)
