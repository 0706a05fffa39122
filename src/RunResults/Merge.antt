-- ===== src/RunResults/Merge.antt =====
-- What an item that is ready to be applied stands for (termroom/run_results.py).
pub mod ThreeWay
use termroom.Prelude.{
  ◌-◌, Bool, true, false, Option, none, some, Text, text_eq, eq_of_text_eq, ne_of_text_eq, ◌≡◌, ◌≢◌,
  ◌⊎◌, inl, inr, refl, ap, subst, arith, Bool-cases, ◌∙◌,
}
use termroom.Prelude.Result.{Result, ok, err}
use termroom.RunSources.Workspace.{WorkspaceEntry}
use termroom.RunResults.Items.{
  modified, added, CollectionPlanItem, Raised, FileSnapshot, ExpectedSource,
}
use termroom.RunResults.Files.{Current, absent, problem, present}
use termroom.RunResults.Plan.{
  Run, Reviewed, added_item, modified_item, expected_of, parent_checked, against_digest, decide,
}
use termroom.RunResults.Apply.{is_ready}

-- a file of the baseline that the Source still has as it was, and that the result changes
pub record IsChange (baseline : Option WorkspaceEntry) (current : Current) (r : Text) : Type 0 where
  pub entry : WorkspaceEntry
  pub digest : Text
  pub snapshot : FileSnapshot
  pub in_baseline : baseline ≡ some entry
  pub known : entry.digest ≡ some digest
  pub in_source : current ≡ present snapshot
  pub kept : snapshot.digest ≡ digest
  pub differs : r ≢ digest

-- a path that neither the baseline nor the Source has
pub record IsAddition (baseline : Option WorkspaceEntry) (current : Current) : Type 0 where
  pub not_in_baseline : baseline ≡ none
  pub not_in_source : current ≡ absent

-- what a ready item says of the baseline, of the Source and of the result
abbrev pub IsMergeable : Text → Option WorkspaceEntry → Current → CollectionPlanItem → Type 0
IsMergeable path baseline current item =
    (r : Text) × (item.path ≡ path)
    × (item.result_digest ≡ some r)
    × (((item.change ≡ modified) × IsChange baseline current r)
        ⊎ ((item.change ≡ added) × IsAddition baseline current))

modified-case :
    (run : Run) (path : Text) (e : WorkspaceEntry) (r digest : Text) (s : FileSnapshot)
    → e.digest ≡ some digest
    → text_eq s.digest r ≡ false
    → is_ready (modified_item run path (some e) r (some s) digest).status ≡ true
    → IsMergeable path (some e) (present s) (modified_item run path (some e) r (some s) digest)
modified-case run path e r digest s k n h =
    let m : text_eq s.digest digest ≡ true = ground (arith, h) in
    let x = eq_of_text_eq s.digest digest m in
    let q : text_eq r digest ≡ false = ground (arith, h, m) in
    (
      r,
      ground (arith, m, q),
      ground (arith, m, q),
      inl (
        ground (arith, m, q),
        record {
          entry = e;
          digest = digest;
          snapshot = s;
          in_baseline = refl;
          known = k;
          in_source = refl;
          kept = x;
          differs = ne_of_text_eq r digest q;
        },
      ),
    )

against_digest-IsMergeable :
    (run : Run) (path : Text) (e : WorkspaceEntry) (r : Text) (s : FileSnapshot) (d : Option Text)
    (rv : Reviewed) (item : CollectionPlanItem)
    → e.digest ≡ d
    → text_eq s.digest r ≡ false
    → against_digest run path (some e) r (some s) d ≡ ok rv
    → rv.item ≡ some item
    → is_ready item.status ≡ true
    → IsMergeable path (some e) (present s) item
against_digest-IsMergeable run path e r s none rv item k n h g a = cc
against_digest-IsMergeable run path e r s (some digest) rv item k n h g a =
    let q : modified_item run path (some e) r (some s) digest ≡ item = cc in
    subst (IsMergeable path (some e) (present s)) q
      (modified-case run path e r digest s k n (ap (λ x. is_ready x.status) q ∙ a))

against_digest-unready :
    (run : Run) (path : Text) (e : WorkspaceEntry) (r : Text) (d : Option Text) (rv : Reviewed)
    (item : CollectionPlanItem)
    → against_digest run path (some e) r none d ≡ ok rv
    → rv.item ≡ some item
    → is_ready item.status ≡ false
against_digest-unready run path e r none rv item h g = cc
against_digest-unready run path e r (some digest) rv item h g = ground (arith, h, g)

parent_checked-IsMergeable :
    (run : Run) (path : Text) (r : Text) (parent : Result Raised Bool) (rv : Reviewed)
    (item : CollectionPlanItem)
    → parent_checked run path none r parent ≡ ok rv
    → rv.item ≡ some item
    → is_ready item.status ≡ true
    → IsMergeable path none absent item
parent_checked-IsMergeable run path r (err e) rv item h g a = cc
parent_checked-IsMergeable run path r (ok false) rv item h g a =
    let q : is_ready item.status ≡ false = ground (arith, h, g) in ground (arith, q, a)
parent_checked-IsMergeable run path r (ok true) rv item h g a =
    let q : added_item run path none r none true ≡ item = cc in
    subst (IsMergeable path none absent) q
      (r, refl, refl, inr (refl, record { not_in_baseline = refl; not_in_source = refl }))

pub decide-IsMergeable :
    (run : Run) (path : Text) (baseline : Option WorkspaceEntry) (r : Text) (current : Current)
    (parent : Result Raised Bool) (rv : Reviewed) (item : CollectionPlanItem)
    → decide run path baseline r current parent ≡ ok rv
    → rv.item ≡ some item
    → is_ready item.status ≡ true
    → IsMergeable path baseline current item
unfolding decide
decide-IsMergeable run path baseline r (problem reason) parent rv item h g a =
    let q : is_ready item.status ≡ false = ground (arith, h, g) in ground (arith, q, a)
decide-IsMergeable run path none r absent parent rv item h g a =
    parent_checked-IsMergeable run path r parent rv item h g a
decide-IsMergeable run path (some e) r absent parent rv item h g a =
    let q = against_digest-unready run path e r e.digest rv item h g in ground (arith, q, a)
decide-IsMergeable run path none r (present s) parent rv item h g a =
    let q : is_ready item.status ≡ false = ground (arith, h, g) in ground (arith, q, a)
decide-IsMergeable run path (some e) r (present s) parent rv item h g a =
    elim (Bool-cases (text_eq s.digest r)) [
      | inl y ↦
          let q : is_ready item.status ≡ false = ground (arith, h, g, y) in ground (arith, q, a)
      | inr n ↦
          let k : against_digest run path (some e) r (some s) e.digest ≡ ok rv =
            ground (arith, h, n) in
          against_digest-IsMergeable run path e r s e.digest rv item refl n k g a
    ]

-- the snapshot of a review is that of the Source
abbrev pub IsSnapshot : Current → ExpectedSource → Type 0
IsSnapshot current x =
    (s : FileSnapshot) × (current ≡ present s) × (x.digest ≡ s.digest) × (x.mtime_ns ≡ s.mtime_ns)

against_digest-IsSnapshot :
    (run : Run) (path : Text) (e : WorkspaceEntry) (r : Text) (cur : Option FileSnapshot)
    (d : Option Text) (rv : Reviewed)
    → against_digest run path (some e) r cur d ≡ ok rv
    → rv.snapshot ≡ expected_of run path (some e) r cur
against_digest-IsSnapshot run path e r cur none rv h = cc
against_digest-IsSnapshot run path e r cur (some digest) rv h = ground (arith, h)

pub decide-IsSnapshot :
    (run : Run) (path : Text) (baseline : Option WorkspaceEntry) (r : Text) (current : Current)
    (parent : Result Raised Bool) (rv : Reviewed) (x : ExpectedSource)
    → decide run path baseline r current parent ≡ ok rv
    → rv.snapshot ≡ some x
    → IsSnapshot current x
unfolding decide
decide-IsSnapshot run path baseline r (problem reason) parent rv x h g = ground (arith, h, g)
decide-IsSnapshot run path none r absent (err e) rv x h g = cc
decide-IsSnapshot run path none r absent (ok b) rv x h g = ground (arith, h, g)
decide-IsSnapshot run path (some e) r absent parent rv x h g =
    let q = against_digest-IsSnapshot run path e r none e.digest rv h in ground (arith, q, g)
decide-IsSnapshot run path none r (present s) parent rv x h g =
    (s, refl, ground (arith, h, g), ground (arith, h, g))
decide-IsSnapshot run path (some e) r (present s) parent rv x h g =
    elim (Bool-cases (text_eq s.digest r)) [
      | inl y ↦ (s, refl, ground (arith, h, g, y), ground (arith, h, g, y))
      | inr n ↦
          let k : against_digest run path (some e) r (some s) e.digest ≡ ok rv =
            ground (arith, h, n) in
          let q = against_digest-IsSnapshot run path e r (some s) e.digest rv k in
          (s, refl, ground (arith, q, g), ground (arith, q, g))
    ]
