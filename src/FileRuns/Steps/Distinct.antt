-- ===== src/FileRuns/Steps/Distinct.antt =====
-- The identifiers of runs are distinct, so no transition meets a second active run (termroom/db.py).
use termroom.Prelude.{
  Bool, true, false, ◌&&◌, not, Option, none, some, List, [], ◌∷◌, map, Text, text_eq, text_eq_refl,
  text_eq_iff, eq_of_text_eq, is_some, ◌≡◌, inl, inr, refl, sym, ap, subst, arith, Bool-cases, ◌∙◌,
}
use termroom.FileRuns.Table.{
  FileRun, Store, find, is_active, amend, without_terminal, forget_terminals,
}
use termroom.FileRuns.Steps.Forgotten.{forgotten, find-forgotten}
use termroom.FileRuns.Store.{Clock}
use termroom.FileRuns.Transition.{other_active}
use termroom.FileRuns.Steps.{
  Step, claims, ties, changes, forgets, Reaches, here, next, find-amend, claim-case, ties-case,
  changes-case, find-id,
}
use termroom.FileRuns.Steps.Active.{empty_store, one_active_run}

unfoldable pub distinct : List FileRun → Bool
unfolding find
distinct [] = true
distinct (r ∷ rs) = not (is_some (find rs r.id)) && distinct rs

is_some-find-amend :
    (rs : List FileRun) (row : FileRun) (j : Text)
    → is_some (find (amend rs row) j) ≡ is_some (find rs j)
is_some-find-amend rs row j = let a = find-amend rs row j in ground (arith, a, text_eq_iff row.id j)

distinct-amend :
    (rs : List FileRun) (row : FileRun) → distinct rs ≡ true → distinct (amend rs row) ≡ true
unfolding distinct amend
distinct-amend [] row d = refl
distinct-amend (r ∷ rs) row d = ground (
  arith,
  distinct-amend rs row,
  is_some-find-amend rs row r.id,
  is_some-find-amend rs row row.id,
  text_eq_iff r.id row.id,
  d,
)

is_some-forgotten : (gone : List Text) (x : Option FileRun) → is_some (forgotten gone x) ≡ is_some x
is_some-forgotten gone none = refl
is_some-forgotten gone (some r) = refl

distinct-forgotten :
    (gone : List Text) (rs : List FileRun) → distinct (map (without_terminal gone) rs) ≡ distinct rs
unfolding distinct
distinct-forgotten gone [] = refl
distinct-forgotten gone (r ∷ rs) =
    let f = ap is_some (find-forgotten gone rs r.id) ∙ is_some-forgotten gone (find rs r.id) in
    rw (f, distinct-forgotten gone rs) refl

module _ (clock : Clock) where
  abbrev IsDistinct : Store → Type 0
  IsDistinct s = distinct s.runs ≡ true

  step-IsDistinct : {s t : Store} → Step clock s t → IsDistinct s → IsDistinct t
  unfolding distinct
  step-IsDistinct (claims now p s c k) d = elim (claim-case now p s c k) [
    | inl n ↦ subst IsDistinct (sym n) d
    | inr w ↦ subst IsDistinct (sym w.2) (ground (arith, w.0, d))
  ]
  step-IsDistinct (ties k terminal_id s) d = elim (ties-case k terminal_id s) [
    | inl n ↦ subst IsDistinct (sym n) d
    | inr w ↦ subst IsDistinct (sym w.3) (distinct-amend s.runs _ d)
  ]
  step-IsDistinct (changes now k expected c s t b a m) d =
      elim (changes-case clock now k expected c s t b a m) [
        | inl n ↦ subst IsDistinct (sym n) d
        | inr w ↦ subst IsDistinct (sym w.4) (distinct-amend s.runs _ d)
      ]
  step-IsDistinct (forgets gone s) d = unfold forget_terminals in distinct-forgotten gone s.runs ∙ d

  pub reaches-distinct :
      {s t : Store} → Reaches clock s t → distinct s.runs ≡ true → distinct t.runs ≡ true
  reaches-distinct here d = d
  reaches-distinct (next q st) d = step-IsDistinct st (reaches-distinct q d)

-- the other active run is found under its identifier
other-found :
    (rs : List FileRun) (row : FileRun)
    → distinct rs ≡ true
    → other_active rs row ≡ true
    → (q : FileRun) × (find rs q.id ≡ some q)
      × (text_eq q.id row.id ≡ false)
      × (q.workspace_id ≡ row.workspace_id)
      × (is_active q ≡ true)
unfolding distinct other_active find
other-found [] row d o = cc
other-found (r ∷ rs) row d o =
    elim (Bool-cases
      (not (text_eq r.id row.id) && text_eq r.workspace_id row.workspace_id && is_active r)) [
        | inl y ↦ (
          r,
          ground (arith, text_eq_refl r.id),
          ground (arith, y),
          eq_of_text_eq r.workspace_id row.workspace_id (ground (arith, y)),
          ground (arith, y),
        )
        | inr n ↦
            let w = other-found rs row (ground (arith, d)) (ground (arith, n, o)) in
            (w.0, ground (arith, d, w.1, text_eq_iff r.id w.0.id), w.2, w.3, w.4)
      ]

pub empty-distinct : distinct [] ≡ true
unfolding distinct
empty-distinct = refl

-- after transactions from empty tables an active run is the only one of its workspace
pub other_active-false :
    (clock : Clock) (s : Store) (id : Text) (r : FileRun)
    → Reaches clock empty_store s
    → find s.runs id ≡ some r
    → is_active r ≡ true
    → other_active s.runs r ≡ false
other_active-false clock s id r h f a = elim (Bool-cases (other_active s.runs r)) [
  | inr n ↦ n
  | inl y ↦
      let w = other-found s.runs r (reaches-distinct clock h empty-distinct) y in
      let e = one_active_run clock id w.0.id r w.0 h f w.1 a w.4 (sym w.3) in
      let i = find-id s.runs id r f in ground (arith, w.2, e, i, text_eq_refl id)
]
