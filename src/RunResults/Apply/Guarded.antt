-- ===== src/RunResults/Apply/Guarded.antt =====
-- What an apply writes over the Source (`_apply_locked` of termroom/run_results.py).
use termroom.Prelude.{
  some-inj, ℕ, Bool, true, false, ◌||◌, not, none, some, List, [], ◌∷◌, Text, text_eq,
  eq_of_text_eq, is_empty, if◌then◌else◌, ◌≡◌, ◌≢◌, inl, inr, refl, sym, ap, subst, arith,
  Bool-cases, Option-cases, ◌∙◌,
}
use termroom.Prelude.Result.{reject-ok, Result, ok, err, reject, bind-eq-ok, Result-cases}
use termroom.RunSources.Workspace.{WorkspaceEntry, WorkspaceManifest}
use termroom.RunResults.Items.{
  CollectionPlanItem, Fault, Raised, result_changed, FileEntry, FileSnapshot, ExpectedSource,
}
use termroom.RunResults.Files.{
  Reading, read_stable_file, source_relative_path, Current, absent, present,
}
use termroom.RunResults.Plan.{Codecs, Views, Run, baseline_of, has_nul}
use termroom.RunResults.Build.{PlanBuild, apply_allowed, build_plan}
use termroom.RunResults.Apply.{
  Write, write_existing, write_new, entry_of, snapshot_of, given_digest, is_ready, decoded,
  entry_content, ready_result_content, write_of, prepared, attempted, apply_ready, Outcome,
  apply_item, apply_items, apply_locked,
}
use termroom.RunResults.Ready.{Sees, IsBacked, IsTaken, build_plan-All}
use mathlib.Core.List.{Memᴰ}
use termroom.Prelude.Lists.{All, All-append}

present-inj : {s t : FileSnapshot} → present s ≡ present t → s ≡ t
present-inj h = cc

same_sight : {c d : Current} → ◌≡◌ {A = Result Raised Current} (ok c) (ok d) → c ≡ d
same_sight h = cc

choose-All :
    (P : Write → Type 0) (b : Bool) (m k : Outcome)
    → (b ≡ true → All P m.writes)
    → All P k.writes
    → All P (if b then m else k).writes
choose-All P true m k h g = h refl
choose-All P false m k h g = g

module _ (codecs : Codecs) (run : Run) (manifest : WorkspaceManifest) (views : Views)
    (items : List CollectionPlanItem) where
  -- the content is what was reviewed for the item
  pub record IsContent (item : CollectionPlanItem) (content : Text) : Type 0 where
    pub raw : List ℕ
    pub reviewed : item.result_digest ≡ some (codecs.file_digest raw)
    pub decoded : codecs.decode raw ≡ some content

  -- a write stands for an item of the plan. It is over a file only if the baseline has the path, under the
  -- condition that the file has the digest of the baseline, which is not that of the result; it is of a new
  -- file only if the baseline does not have the path and the Source did not in the review.
  abbrev pub IsGuarded : Write → Type 0
  IsGuarded (write_existing path content expected) =
      (item : CollectionPlanItem) × Memᴰ item items
      × (source_relative_path codecs.is_alpha run.source_path item.path ≡ ok path)
      × (entry : WorkspaceEntry) × (baseline_of manifest.entries item.path ≡ some entry)
      × (entry.digest ≡ some expected.digest)
      × (item.result_digest ≢ some expected.digest)
      × IsContent item content
  IsGuarded (write_new path content) =
      (item : CollectionPlanItem) × Memᴰ item items
      × (source_relative_path codecs.is_alpha run.source_path item.path ≡ ok path)
      × (baseline_of manifest.entries item.path ≡ none)
      × Sees codecs run manifest views item.path absent
      × IsContent item content

  module _ (built : PlanBuild) (readings : Text → Reading)
      (write : Write → Result Fault (Unit {0})) where
    entry_content-IsContent :
        (item : CollectionPlanItem) (entry : FileEntry) (content : Text)
        → entry_content codecs run built readings write entry
            (readings item.path)
            (given_digest item.result_digest)
          ≡ ok content
        → IsContent item content
    entry_content-IsContent item entry content h =
        let g = given_digest item.result_digest in
        let v = bind-eq-ok (reject (entry.is_dir || is_empty g) result_changed) _ h in
        let w = bind-eq-ok (read_stable_file entry (readings item.path)) _ v.2 in
        let raw = w.0 in
        let t =
          bind-eq-ok
            (reject (not (text_eq (codecs.file_digest raw) g) || has_nul raw) result_changed) _
            w.2 in
        let b = reject-ok _ _ v.1 in
        let c = reject-ok _ _ t.1 in
        let e = eq_of_text_eq (codecs.file_digest raw) g (ground (arith, c)) in
        let d : decoded codecs run built readings write (codecs.decode raw) ≡ ok content = t.2 in
        elim (Option-cases item.result_digest) [
          | inl n ↦ ground (arith, b, n)
          | inr o ↦ elim (Option-cases (codecs.decode raw)) [
            | inl n ↦ ground (arith, d, n)
            | inr k ↦ record {
              raw = raw;
              reviewed = o.1 ∙ ap some (ap given_digest (sym o.1) ∙ sym e);
              decoded = ground (arith, d, k.1);
            }
          ]
        ]

    ready_result_content-IsContent :
        (item : CollectionPlanItem) (content : Text)
        → ready_result_content codecs run built readings write item ≡ ok content
        → IsContent item content
    unfolding ready_result_content
    ready_result_content-IsContent item content h =
        elim (Option-cases (entry_of built.result_entries item.path)) [
          | inl n ↦ ground (arith, h, n)
          | inr e ↦ entry_content-IsContent item e.0 content (ground (arith, h, e.1))
        ]

    snapshot_of-IsTaken :
        (snapshots : List (Text × ExpectedSource)) (path : Text) (x : ExpectedSource)
        → All (IsTaken codecs run manifest views) snapshots
        → snapshot_of snapshots path ≡ some x
        → IsTaken codecs run manifest views (path, x)
    unfolding snapshot_of
    snapshot_of-IsTaken [] path x a h = cc
    snapshot_of-IsTaken (s ∷ snapshots) path x a h = elim (Bool-cases (text_eq s.0 path)) [
      | inl y ↦
          let e : s.1 ≡ x = ground (arith, h, y) in
          subst (λ p. IsTaken codecs run manifest views (p, x)) (eq_of_text_eq s.0 path y)
            (subst (λ z. IsTaken codecs run manifest views (s.0, z)) e a.0)
      | inr n ↦ snapshot_of-IsTaken snapshots path x a.1 (ground (arith, h, n))
    ]

    write_of-IsGuarded :
        (item : CollectionPlanItem) (relative content : Text) (w : Write)
        → All (IsTaken codecs run manifest views) built.current_snapshots
        → IsBacked codecs run manifest views item
        → Memᴰ item items
        → is_ready item.status ≡ true
        → source_relative_path codecs.is_alpha run.source_path item.path ≡ ok relative
        → IsContent item content
        → write_of codecs run built readings write item item.change relative content ≡ ok w
        → IsGuarded w
    write_of-IsGuarded item relative content w a b m r e c h =
        let v = b r in
        elim v.2.3 [
          | inl k ↦ elim (Option-cases (snapshot_of built.current_snapshots item.path)) [
            | inl n ↦ ground (arith, h, k.0, n)
            | inr x ↦
                let t = snapshot_of-IsTaken built.current_snapshots item.path x.0 a x.1 in
                let z : write_existing relative content x.0 ≡ w = ground (arith, h, k.0, x.1) in
                let s : t.2.0 ≡ k.1.snapshot =
                  present-inj (sym t.2.1 ∙ same_sight (sym t.1 ∙ v.1) ∙ k.1.in_source) in
                let d : x.0.digest ≡ k.1.digest = t.2.2 ∙ ap (λ q. q.digest) s ∙ k.1.kept in
                subst IsGuarded z (
                  item,
                  m,
                  e,
                  k.1.entry,
                  k.1.in_baseline,
                  k.1.known ∙ ap some (sym d),
                  (λ q. k.1.differs (some-inj (sym v.2.2 ∙ q) ∙ d)),
                  c,
                )
          ]
          | inr k ↦
              let z : write_new relative content ≡ w = ground (arith, h, k.0) in
              subst IsGuarded z (item, m, e, k.1.not_in_baseline, v.1 ∙ ap ok k.1.not_in_source, c)
        ]

    attempted-All :
        (item : CollectionPlanItem) (relative : Text)
        → All (IsTaken codecs run manifest views) built.current_snapshots
        → IsBacked codecs run manifest views item
        → Memᴰ item items
        → is_ready item.status ≡ true
        → source_relative_path codecs.is_alpha run.source_path item.path ≡ ok relative
        → All IsGuarded (apply_ready codecs run built readings write item relative).writes
    attempted-All item relative a b m r e =
        elim (Result-cases (prepared codecs run built readings write item relative)) [
          | inr f ↦
              subst (λ z. All IsGuarded (attempted codecs run built readings write item z).writes)
                (sym f.1) tt
          | inl w ↦
              let v =
                bind-eq-ok (ready_result_content codecs run built readings write item) _ w.1 in
              subst (λ z. All IsGuarded (attempted codecs run built readings write item z).writes)
                (sym w.1)
                (
                  write_of-IsGuarded item relative v.0 w.0 a b m r e
                      (ready_result_content-IsContent item v.0 v.1) v.2,
                  tt,
                )
        ]

    apply_item-All :
        (item : CollectionPlanItem) (x : Result Raised Text) (rest : Outcome)
        → x ≡ source_relative_path codecs.is_alpha run.source_path item.path
        → All (IsTaken codecs run manifest views) built.current_snapshots
        → IsBacked codecs run manifest views item
        → Memᴰ item items
        → is_ready item.status ≡ true
        → All IsGuarded rest.writes
        → All IsGuarded (apply_item codecs run built readings write item x rest).writes
    apply_item-All item (err e) rest q a b m r h = tt
    apply_item-All item (ok relative) rest q a b m r h =
        All-append IsGuarded (apply_ready codecs run built readings write item relative).writes
          rest.writes (attempted-All item relative a b m r (sym q)) h

    apply_items-All :
        (xs : List CollectionPlanItem)
        → All (IsTaken codecs run manifest views) built.current_snapshots
        → All (IsBacked codecs run manifest views) xs
        → ((item : CollectionPlanItem) → Memᴰ item xs → Memᴰ item items)
        → All IsGuarded (apply_items codecs run built readings write xs).writes
    unfolding apply_items
    apply_items-All [] a b sub = tt
    apply_items-All (item ∷ xs) a b sub =
        let rest = apply_items codecs run built readings write xs in
        let h = apply_items-All xs a b.1 (λ i m. sub i (Memᴰ.tail m)) in
        choose-All IsGuarded (is_ready item.status) _ _
          (λ y. apply_item-All item _ rest refl a b.0 (sub item (Memᴰ.head refl)) y h) h

    apply_locked-All :
        (revision : Text)
        → All (IsTaken codecs run manifest views) built.current_snapshots
        → All (IsBacked codecs run manifest views) built.plan.items
        → items ≡ built.plan.items
        → All IsGuarded (apply_locked codecs run built readings write revision).writes
    unfolding apply_locked
    apply_locked-All revision a b e =
        choose-All IsGuarded (is_empty revision || not (text_eq revision built.plan.revision)) _ _
          (λ y. tt)
          (choose-All IsGuarded (not (apply_allowed built.plan)) _ _ (λ y. tt)
            (apply_items-All built.plan.items a b (λ i m. subst (Memᴰ i) (sym e) m)))

-- What an apply writes, whatever it is asked for and however its reads and writes end: every write stands
-- for an item of the plan that the review built, at the place of its path in the Source, and its content
-- is a UTF-8 text with the reviewed digest. It is over an existing file only under the condition that
-- the file still has the digest that it had in the baseline of the Run, and only if the result has another
-- one; it is of a new file only if the baseline lacks the path and the Source lacked it in the review.
pub apply_locked-IsGuarded :
    (codecs : Codecs) (plan_revision : List CollectionPlanItem → Text) (run : Run)
    (manifest : WorkspaceManifest) (scanned : Result Raised (List FileEntry)) (views : Views)
    (built : PlanBuild) (readings : Text → Reading) (write : Write → Result Fault (Unit {0}))
    (revision : Text)
    → run.baseline ≡ some manifest
    → build_plan codecs plan_revision run scanned views ≡ ok built
    → All
        (IsGuarded codecs run manifest views built.plan.items)
        (apply_locked codecs run built readings write revision).writes
apply_locked-IsGuarded codecs plan_revision run manifest scanned views built readings write revision
      e h =
    let v = build_plan-All codecs run manifest views plan_revision scanned built e h in
    apply_locked-All codecs run manifest views built.plan.items built readings write revision v.1
      v.0 refl
