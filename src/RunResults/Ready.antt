-- ===== src/RunResults/Ready.antt =====
-- The ready items and the snapshots of a whole review (termroom/run_results.py).
use termroom.Prelude.{
  ℕ, Bool, true, ◌&&◌, not, Option, none, some, List, [], ◌∷◌, Text, is_some, ◌≡◌, inl, inr, sym,
  subst, arith, Bool-cases, Option-cases,
}
use termroom.Prelude.Result.{ok-inj, Result, ok, err, ◌>>=◌, bind-eq-ok}
use termroom.ArchiveSafety.Manifest.{text_lt}
use termroom.RunSources.Workspace.{WorkspaceEntry, WorkspaceManifest, is_file}
use termroom.RunResults.Items.{CollectionPlanItem, Raised, FileEntry, ExpectedSource, exceeds}
use termroom.RunResults.Files.{read_stable_file, Current, read_current_source}
use termroom.RunResults.Plan.{
  Codecs, Views, Run, Reviewed, baseline_of, is_baseline_file, is_excluded_result_path, has_nul,
  is_unsupported_result,
}
use termroom.RunResults.Review.{
  review_source, unless_excluded, is_excluded, review_text, review_raw, review_entry, Review,
  add_item, add_snapshot, review_entries,
}
use termroom.RunResults.Build.{
  put_entries, has_path, deletion, deletions, insert_item, ordered_items, PlanBuild, planned,
  collectable, build_plan,
}
use termroom.RunResults.Merge.{IsMergeable, IsSnapshot, decide-IsMergeable, decide-IsSnapshot}
use termroom.RunResults.Apply.{is_ready}
use termroom.Prelude.Lists.{All, All-append, All-if}

module _ (codecs : Codecs) (run : Run) (manifest : WorkspaceManifest) (views : Views) where
  -- the review saw the Source at the path as `current`
  abbrev pub Sees : Text → Current → Type 0
  Sees path current =
      read_current_source codecs.is_alpha run.source_path path (views.source path) ≡ ok current

  -- a ready item is of a file that the baseline and the Source have in the same state, or of a path that
  -- neither has
  abbrev pub IsBacked : CollectionPlanItem → Type 0
  IsBacked item =
      is_ready item.status ≡ true
      → (current : Current) × Sees item.path current
        × IsMergeable item.path (baseline_of manifest.entries item.path) current item

  abbrev pub IsTaken : Text × ExpectedSource → Type 0
  IsTaken s = (current : Current) × Sees s.0 current × IsSnapshot current s.1

  abbrev pub AllSnapshots : Text → Option ExpectedSource → Type 0
  AllSnapshots path none = Unit {0}
  AllSnapshots path (some x) = IsTaken (path, x)

  -- what a round gives
  abbrev Round : Text → Option WorkspaceEntry → Reviewed → Type 0
  Round path baseline rv =
      ((item : CollectionPlanItem)
        → rv.item ≡ some item
        → is_ready item.status ≡ true
        → (current : Current) × Sees path current × IsMergeable path baseline current item)
      × ((x : ExpectedSource) → rv.snapshot ≡ some x → IsTaken (path, x))

  abbrev is_idle : Reviewed → Bool
  is_idle rv =
      not (is_some rv.snapshot)
      && elim rv.item [ none ↦ true | some item ↦ not (is_ready item.status) ]

  -- a round without a ready item and without a snapshot
  idle :
      (path : Text) (baseline : Option WorkspaceEntry) (rv : Reviewed)
      → is_idle rv ≡ true
      → Round path baseline rv
  idle path baseline rv h = ((λ item g a. ground (arith, h, g, a)), (λ x g. ground (arith, h, g)))

  review_source-Round :
      (path : Text) (baseline : Option WorkspaceEntry) (r : Text) (rv : Reviewed)
      → review_source codecs run manifest views path baseline r ≡ ok rv
      → Round path baseline rv
  unfolding review_source
  review_source-Round path baseline r rv h =
      let v =
        bind-eq-ok (read_current_source codecs.is_alpha run.source_path path (views.source path)) _
          h in
      (
        (λ item g a. (v.0, v.1, decide-IsMergeable run path baseline r v.0 _ rv item v.2 g a)),
        (λ x g. (v.0, v.1, decide-IsSnapshot run path baseline r v.0 _ rv x v.2 g)),
      )

  review_text-Round :
      (path : Text) (baseline : Option WorkspaceEntry) (r : Text) (rv : Reviewed)
      → review_text codecs run manifest views path baseline r ≡ ok rv
      → Round path baseline rv
  unfolding review_text
  review_text-Round path baseline r rv h =
      elim (Bool-cases (is_some baseline && not (is_baseline_file baseline))) [
        | inl y ↦ idle path baseline rv (ground (arith, h, y))
        | inr n ↦
            let g : (is_excluded codecs run manifest views path baseline
                  >>= unless_excluded codecs run manifest views path baseline r)
                ≡ ok rv =
              ground (arith, h, n) in
            let v = bind-eq-ok (is_excluded codecs run manifest views path baseline) _ g in
            elim (Bool-cases v.0) [
              | inl y ↦ idle path baseline rv (ground (arith, v.2, y))
              | inr m ↦ review_source-Round path baseline r rv (ground (arith, v.2, m))
            ]
      ]

  review_raw-Round :
      (path : Text) (baseline : Option WorkspaceEntry) (raw : Result Raised (List ℕ))
      (rv : Reviewed)
      → review_raw codecs run manifest views path baseline raw ≡ ok rv
      → Round path baseline rv
  review_raw-Round path baseline (err e) rv h = elim (Bool-cases (is_unsupported_result e)) [
    | inl y ↦ idle path baseline rv (ground (arith, h, y))
    | inr n ↦ ground (arith, h, n)
  ]
  review_raw-Round path baseline (ok raw) rv h = elim (Bool-cases (has_nul raw)) [
    | inl y ↦ idle path baseline rv (ground (arith, h, y))
    | inr n ↦ elim (Bool-cases (is_some (codecs.decode raw))) [
      | inr m ↦ idle path baseline rv (ground (arith, h, n, m))
      | inl y ↦
          review_text-Round path baseline (codecs.file_digest raw) rv (ground (arith, h, n, y))
    ]
  ]

  review_entry-Round :
      (entry : FileEntry) (rv : Reviewed)
      → review_entry codecs run manifest views entry ≡ ok rv
      → Round entry.relative_path (baseline_of manifest.entries entry.relative_path) rv
  unfolding review_entry
  review_entry-Round entry rv h =
      let path = entry.relative_path in
      let baseline = baseline_of manifest.entries path in
      elim (Bool-cases (is_excluded_result_path path manifest.excluded_prefixes)) [
        | inl y ↦ idle path baseline rv (ground (arith, h, y))
        | inr n ↦ elim (Bool-cases entry.is_dir) [
          | inl y ↦ idle path baseline rv (ground (arith, h, n, y))
          | inr m ↦ elim (Bool-cases (exceeds entry.size run.max_edit_bytes)) [
            | inl y ↦ idle path baseline rv (ground (arith, h, n, m, y))
            | inr l ↦
                review_raw-Round path baseline (read_stable_file entry (views.reading path)) rv
                  (ground (arith, h, n, m, l))
          ]
        ]
      ]

  add_item-All :
      (path : Text) (rv : Reviewed) (items : List CollectionPlanItem)
      → Round path (baseline_of manifest.entries path) rv
      → All IsBacked items
      → All IsBacked (add_item rv.item items)
  add_item-All path rv items h a = elim (Option-cases rv.item) [
    | inl n ↦ subst (λ z. All IsBacked (add_item z items)) (sym n) a
    | inr w ↦
        subst (λ z. All IsBacked (add_item z items)) (sym w.1)
          (
            (λ r.
                let v = h.0 w.0 w.1 r in
                subst
                  (λ p.
                    (current : Current) × Sees p current
                    × IsMergeable p (baseline_of manifest.entries p) current (w.0))
                  (sym v.2.1) v),
            a,
          )
  ]

  add_snapshot-All :
      (path : Text) (rv : Reviewed) (snapshots : List (Text × ExpectedSource))
      → Round path (baseline_of manifest.entries path) rv
      → All IsTaken snapshots
      → All IsTaken (add_snapshot path rv.snapshot snapshots)
  add_snapshot-All path rv snapshots h a = elim (Option-cases rv.snapshot) [
    | inl n ↦ subst (λ z. All IsTaken (add_snapshot path z snapshots)) (sym n) a
    | inr w ↦ subst (λ z. All IsTaken (add_snapshot path z snapshots)) (sym w.1) (h.1 w.0 w.1, a)
  ]

  pub review_entries-All :
      (entries : List FileEntry) (review : Review)
      → review_entries codecs run manifest views entries ≡ ok review
      → All IsBacked review.items × All IsTaken review.current_snapshots
  unfolding review_entries
  review_entries-All [] review h =
      let e = ok-inj h in
      (subst (λ z. All IsBacked z.items) e tt, subst (λ z. All IsTaken z.current_snapshots) e tt)
  review_entries-All (entry ∷ entries) review h =
      let v = bind-eq-ok (review_entry codecs run manifest views entry) _ h in
      let w = bind-eq-ok (review_entries codecs run manifest views entries) _ v.2 in
      let i = review_entries-All entries w.0 w.1 in
      let r = review_entry-Round entry v.0 v.1 in
      let e = ok-inj w.2 in
      (
        subst (λ z. All IsBacked z.items) e (add_item-All entry.relative_path v.0 w.0.items r i.0),
        subst (λ z. All IsTaken z.current_snapshots) e
            (add_snapshot-All entry.relative_path v.0 w.0.current_snapshots r i.1),
      )

  insert_item-All :
      (P : CollectionPlanItem → Type 0) (e : CollectionPlanItem) (xs : List CollectionPlanItem)
      → P e
      → All P xs
      → All P (insert_item e xs)
  unfolding insert_item
  insert_item-All P e [] h a = (h, tt)
  insert_item-All P e (x ∷ xs) h a =
      All-if P (text_lt x.path e.path) (x ∷ insert_item e xs) (e ∷ x ∷ xs)
        (a.0, insert_item-All P e xs h a.1) (h, a)

  ordered_items-All :
      (P : CollectionPlanItem → Type 0) (xs : List CollectionPlanItem)
      → All P xs
      → All P (ordered_items xs)
  unfolding ordered_items
  ordered_items-All P [] a = tt
  ordered_items-All P (x ∷ xs) a =
      insert_item-All P x (ordered_items xs) a.0 (ordered_items-All P xs a.1)

  deletions-All :
      (tree : List FileEntry) (es : List WorkspaceEntry) → All IsBacked (deletions tree es)
  unfolding deletions
  deletions-All tree [] = tt
  deletions-All tree (e ∷ es) =
      All-if IsBacked (is_file e.kind && not (has_path tree e.relative_path))
        (deletion e ∷ deletions tree es) (deletions tree es) ((λ r. cc), deletions-All tree es)
        (deletions-All tree es)

  abbrev scanned_with :
      (List CollectionPlanItem → Text)
      → WorkspaceManifest
      → List FileEntry
      → Result Raised PlanBuild
  scanned_with plan_revision given tree = do
    review ← review_entries codecs run given views (put_entries tree [])
    ok (planned codecs plan_revision run tree given review)

  planned-All :
      (plan_revision : List CollectionPlanItem → Text) (tree : List FileEntry) (review : Review)
      → review_entries codecs run manifest views (put_entries tree []) ≡ ok review
      → All IsBacked (planned codecs plan_revision run tree manifest review).plan.items
        × All IsTaken review.current_snapshots
  planned-All plan_revision tree review h =
      let v = review_entries-All (put_entries tree []) review h in
      (
        ordered_items-All IsBacked _ (
            All-append IsBacked review.items (deletions tree manifest.entries) v.0
              (deletions-All tree manifest.entries)),
        v.1,
      )

  pub build_plan-All :
      (plan_revision : List CollectionPlanItem → Text) (scanned : Result Raised (List FileEntry))
      (built : PlanBuild)
      → run.baseline ≡ some manifest
      → build_plan codecs plan_revision run scanned views ≡ ok built
      → All IsBacked built.plan.items × All IsTaken built.current_snapshots
  unfolding build_plan
  build_plan-All plan_revision scanned built e h =
      let v = bind-eq-ok (collectable codecs plan_revision run) _ h in
      let m : v.0 ≡ manifest = ground (arith, v.1, e) in
      let g = subst (λ z. (scanned >>= scanned_with plan_revision z) ≡ ok built) m v.2 in
      let w = bind-eq-ok scanned _ g in
      let x = bind-eq-ok (review_entries codecs run manifest views (put_entries w.0 [])) _ w.2 in
      let y = planned-All plan_revision w.0 x.0 x.1 in
      let k = ok-inj x.2 in
      (
        subst (λ z. All IsBacked z.plan.items) k y.0,
        subst (λ z. All IsTaken z.current_snapshots) k y.1,
      )
