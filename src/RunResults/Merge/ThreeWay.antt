-- ===== src/RunResults/Merge/ThreeWay.antt =====
-- The status that the review gives to a path, from the digests of the baseline, of the Source and of the
-- result (termroom/run_results.py).
use termroom.Prelude.{
  Bool, true, false, ◌||◌, not, Option, none, some, some-inj, Text, text_eq, text_eq_iff,
  eq_of_text_eq, ne_of_text_eq, true_not_false, is_some, ◌≢◌, ◌↔◌, sym, subst, ◌∙◌, if◌then◌else◌,
  ◌≡◌, inl, inr, refl, ap, arith, Bool-cases, Option-cases,
}
use termroom.Prelude.Result.{ok}
use termroom.RunSources.Workspace.{WorkspaceEntry}
use termroom.RunResults.Items.{
  PlanStatus, ready, already_result, conflict, Reason, result_matches_baseline, CollectionPlanItem,
  FileSnapshot,
}
use termroom.RunResults.Files.{Current, absent, present}
use termroom.RunResults.Plan.{
  Run, Reviewed, digest_of, added_item, modified_item, reviewed, matching_item, against_digest,
  decide,
}

abbrev same_text : Option Text → Option Text → Bool
same_text (some a) (some b) = text_eq b a
same_text _ _ = false

abbrev merge : (baseline source : Option Text) → (result : Text) → PlanStatus
merge baseline (some s) r =
    if text_eq s r then already_result else if same_text baseline (some s) then ready else conflict
merge none none r = ready
merge (some b) none r = conflict

abbrev pub source_digest : Option FileSnapshot → Option Text
source_digest none = none
source_digest (some s) = some s.digest

abbrev pub sight : Option FileSnapshot → Current
sight none = absent
sight (some s) = present s

abbrev is_baseline_match : Reason → Bool
is_baseline_match result_matches_baseline = true
is_baseline_match _ = false

-- an item with the status, for the reason of another one
abbrev IsVerdict : CollectionPlanItem → PlanStatus → Type 0
IsVerdict item status = (item.status ≡ status) × (is_baseline_match item.reason ≡ false)

kept_status :
    (run : Run) (path : Text) (e : WorkspaceEntry) (r : Text) (s : FileSnapshot) (digest : Text)
    → text_eq s.digest r ≡ false
    → ((modified_item run path (some e) r (some s) digest).status
        ≡ (if text_eq s.digest digest then ready else conflict))
      × (is_baseline_match (modified_item run path (some e) r (some s) digest).reason ≡ false)
kept_status run path e r s digest n =
    let a = text_eq_iff s.digest digest in
    let b = text_eq_iff r digest in
    let c = text_eq_iff s.digest r in (ground (arith, a, b, c, n), ground (arith, a, b, c, n))

decide-merge :
    (run : Run) (path : Text) (baseline : Option WorkspaceEntry) (r : Text)
    (source : Option FileSnapshot)
    → (not (is_some baseline) || is_some (digest_of baseline)) ≡ true
    → (reviewed : Reviewed) × (item : CollectionPlanItem) × (decide run path baseline r
          (sight source)
          (ok true)
        ≡ ok reviewed)
      × (reviewed.item ≡ some item)
      × (item.status ≡ merge (digest_of baseline) (source_digest source) r)
      × (is_baseline_match item.reason ≡ false)
unfolding decide
decide-merge run path none r none k = (_, _, refl, refl, ground arith, ground arith)
decide-merge run path none r (some s) k = elim (Bool-cases (text_eq s.digest r)) [
  | inl y ↦ (
    reviewed run path none r (some s) (matching_item run path none r (some s)),
    matching_item run path none r (some s),
    ground (arith, y),
    refl,
    ground (arith, y),
    refl,
  )
  | inr n ↦ (
    reviewed run path none r (some s) (added_item run path none r (some s) true),
    added_item run path none r (some s) true,
    ground (arith, n),
    refl,
    ground (arith, n),
    refl,
  )
]
decide-merge run path (some e) r none k = elim (Option-cases e.digest) [
  | inl n ↦ ground (arith, k, n)
  | inr d ↦
      let item = modified_item run path (some e) r none (d.0) in
      (
        reviewed run path (some e) r none item,
        item,
        ap (against_digest run path (some e) r none) d.1,
        refl,
        ground (arith, d.1),
        refl,
      )
]
decide-merge run path (some e) r (some s) k = elim (Option-cases e.digest) [
  | inl n ↦ ground (arith, k, n)
  | inr d ↦ elim (Bool-cases (text_eq s.digest r)) [
    | inl y ↦ (
      reviewed run path (some e) r (some s) (matching_item run path (some e) r (some s)),
      matching_item run path (some e) r (some s),
      ground (arith, y),
      refl,
      ground (arith, y),
      refl,
    )
    | inr n ↦
        let item = modified_item run path (some e) r (some s) (d.0) in
        let v = kept_status run path e r s d.0 n in
        (
          reviewed run path (some e) r (some s) item,
          item,
          ground (arith, n, d.1),
          refl,
          ground (arith, n, d.1, v),
          v.1,
        )
  ]
]

-- what a status says of the digests of the baseline, of the Source and of the result
pub record IsTold (baseline source : Option Text) (result : Text) (status : PlanStatus)
    : Type 0 where
  pub taken : (status ≡ ready) ↔ ((source ≡ baseline) × (source ≢ some result))
  pub there : (status ≡ already_result) ↔ (source ≡ some result)
  pub kept : (status ≡ conflict) ↔ ((source ≢ baseline) × (source ≢ some result))

module _ (b s : Option Text) (r : Text) where
  ready-IsTold : s ≡ b → s ≢ some r → IsTold b s r ready
  ready-IsTold e n = record {
    taken = ((λ h. (e, n)), (λ h. refl));
    there = ((λ h. cc), (λ h. absurd (n h)));
    kept = ((λ h. cc), (λ h. absurd (h.0 e)));
  }

  already-IsTold : s ≡ some r → IsTold b s r already_result
  already-IsTold e = record {
    taken = ((λ h. cc), (λ h. absurd (h.1 e)));
    there = ((λ h. e), (λ h. refl));
    kept = ((λ h. cc), (λ h. absurd (h.1 e)));
  }

  conflict-IsTold : s ≢ b → s ≢ some r → IsTold b s r conflict
  conflict-IsTold m n = record {
    taken = ((λ h. cc), (λ h. absurd (m h.0)));
    there = ((λ h. cc), (λ h. absurd (n h)));
    kept = ((λ h. (m, n)), (λ h. refl));
  }

some-ne : (x y : Text) → text_eq x y ≡ false → ◌≢◌ {A = Option Text} (some x) (some y)
some-ne x y n h = ne_of_text_eq x y n (some-inj h)

merge-IsTold : (b s : Option Text) (r : Text) → IsTold b s r (merge b s r)
merge-IsTold none none r = ready-IsTold none none r refl (λ h. cc)
merge-IsTold (some x) none r = conflict-IsTold (some x) none r (λ h. cc) (λ h. cc)
merge-IsTold none (some y) r = elim (Bool-cases (text_eq y r)) [
  | inl e ↦ rw e (already-IsTold none (some y) r (ap some (eq_of_text_eq y r e)))
  | inr n ↦ rw n (conflict-IsTold none (some y) r (λ h. cc) (some-ne y r n))
]
merge-IsTold (some x) (some y) r = elim (Bool-cases (text_eq y r)) [
  | inl e ↦ rw e (already-IsTold (some x) (some y) r (ap some (eq_of_text_eq y r e)))
  | inr n ↦ elim (Bool-cases (text_eq y x)) [
    | inl k ↦
        rw (n, k) (ready-IsTold (some x) (some y) r (ap some (eq_of_text_eq y x k)) (some-ne y r n))
    | inr m ↦ rw (n, m) (conflict-IsTold (some x) (some y) r (some-ne y x m) (some-ne y r n))
  ]
]

-- The review of a path whose Source could be read, where a baseline entry has a digest and a parent of a
-- new file exists, gives an item. It is `ready` exactly if the Source is as in the baseline, or in
-- neither, and is not as the result; `already_result` exactly if the Source is as the result; and
-- `conflict` exactly if the Source is neither as in the baseline nor as the result. So a path that both
-- sides made or changed alike is no conflict, one that only the Source changed is one, and the reason
-- `result_matches_baseline` is never given.
pub decide-status :
    (run : Run) (path : Text) (baseline : Option WorkspaceEntry) (r : Text)
    (source : Option FileSnapshot)
    → (not (is_some baseline) || is_some (digest_of baseline)) ≡ true
    → (reviewed : Reviewed) × (item : CollectionPlanItem) × (decide run path baseline r
          (sight source)
          (ok true)
        ≡ ok reviewed)
      × (reviewed.item ≡ some item)
      × IsTold (digest_of baseline) (source_digest source) r item.status
      × (item.reason ≢ result_matches_baseline)
decide-status run path baseline r source k =
    let m = decide-merge run path baseline r source k in
    let i = m.1 in
    let v = m.4 in
    (
      m.0,
      i,
      m.2,
      m.3,
      subst (IsTold (digest_of baseline) (source_digest source) r) (sym v)
          (merge-IsTold (digest_of baseline) (source_digest source) r),
      λ h. true_not_false (sym (ap is_baseline_match h) ∙ m.5),
    )
