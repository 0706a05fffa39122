-- ===== src/FileRuns/Steps/Active.antt =====
-- A Workspace has at most one active run (termroom/db.py).
use termroom.Prelude.{
  true, none, some, List, [], ◌∷◌, Text, text_eq, text_eq_iff, eq_of_text_eq, ◌≡◌, ◌≢◌, inl, inr,
  refl, sym, ap, subst, arith, Bool-cases, ◌∙◌,
}
use termroom.FileRuns.Table.{
  FileRun, Event, Store, find, is_active, active_in, amend, forget_terminals,
}
use termroom.FileRuns.Steps.Forgotten.{find-before}
use termroom.FileRuns.Store.{Clock, ClaimPayload, new_run}
use termroom.FileRuns.Transition.{changed, insert_file_run_event}
use termroom.FileRuns.Steps.{
  Step, claims, ties, changes, forgets, Reaches, here, next, claim-case, ties-case, changes-case,
  find-written,
}

-- two active runs of one workspace are one run
abbrev pub OneActive : Store → Type 0
OneActive s =
    (i j : Text) (r q : FileRun)
    → find s.runs i ≡ some r
    → find s.runs j ≡ some q
    → is_active r ≡ true
    → is_active q ≡ true
    → r.workspace_id ≡ q.workspace_id
    → i ≡ j

-- no active run of the workspace is found
active_in-none :
    (rs : List FileRun) (w i : Text) (r : FileRun)
    → active_in rs w ≡ none
    → find rs i ≡ some r
    → is_active r ≡ true
    → r.workspace_id ≢ w
unfolding active_in find
active_in-none [] w i r n f a = cc
active_in-none (q ∷ rs) w i r n f a =
    ground (arith, active_in-none rs w i r, text_eq_iff q.workspace_id w)

-- a run found after a row was written stands for an active run that was there
back :
    (rs : List FileRun) (q row : FileRun) (k i : Text) (r : FileRun)
    → find rs k ≡ some q
    → is_active q ≡ true
    → row.id ≡ q.id
    → row.workspace_id ≡ q.workspace_id
    → find (amend rs row) i ≡ some r
    → is_active r ≡ true
    → (o : FileRun) × (find rs i ≡ some o)
      × (is_active o ≡ true)
      × (o.workspace_id ≡ r.workspace_id)
back rs q row k i r f a e w h b =
    let g = sym (find-written rs q row k i f e) ∙ h in
    elim (Bool-cases (text_eq k i)) [
      | inl y ↦
          (q, subst (λ x. find rs x ≡ some q) (eq_of_text_eq k i y) f, a, ground (arith, y, g, w))
      | inr n ↦ (r, ground (arith, n, g), b, refl)
    ]

written-OneActive :
    (s : Store) (rs : List FileRun) (events : List Event) (q row : FileRun) (k : Text)
    → OneActive s
    → rs ≡ amend s.runs row
    → find s.runs k ≡ some q
    → is_active q ≡ true
    → row.id ≡ q.id
    → row.workspace_id ≡ q.workspace_id
    → OneActive (record { runs = rs; events = events })
written-OneActive s rs events q row k o e f a d w i j r p fi fj ai aj wij =
    let bi = back s.runs q row k i r f a d w (ap (λ x. find x i) (sym e) ∙ fi) ai in
    let bj = back s.runs q row k j p f a d w (ap (λ x. find x j) (sym e) ∙ fj) aj in
    o i j bi.0 bj.0 bi.1 bj.1 bi.2 bj.2 (bi.3 ∙ wij ∙ sym bj.3)

added-OneActive :
    (now : Text) (p : ClaimPayload) (s : Store)
    → OneActive s
    → active_in s.runs p.workspace_id ≡ none
    → OneActive (record s { runs = new_run p now ∷ s.runs })
unfolding find
added-OneActive now p s o n i j r q fi fj ai aj w = elim (Bool-cases (text_eq p.id i)) [
  | inl yi ↦ elim (Bool-cases (text_eq p.id j)) [
    | inl yj ↦ sym (eq_of_text_eq p.id i yi) ∙ eq_of_text_eq p.id j yj
    | inr nj ↦ absurd (
        active_in-none s.runs p.workspace_id j q n (ground (arith, nj, fj)) aj
          (ground (arith, yi, fi, w)))
  ]
  | inr ni ↦ elim (Bool-cases (text_eq p.id j)) [
    | inl yj ↦ absurd (
        active_in-none s.runs p.workspace_id i r n (ground (arith, ni, fi)) ai
          (ground (arith, yj, fj, w)))
    | inr nj ↦ o i j r q (ground (arith, ni, fi)) (ground (arith, nj, fj)) ai aj w
  ]
]

forgotten-OneActive :
    (gone : List Text) (s : Store) → OneActive s → OneActive (forget_terminals gone s)
unfolding forget_terminals
forgotten-OneActive gone s o i j r q fi fj ai aj w =
    let a = find-before gone s.runs i r fi in
    let b = find-before gone s.runs j q fj in
    o i j a.0 b.0 a.1 b.1 (sym (ap is_active a.2) ∙ ai) (sym (ap is_active b.2) ∙ aj)
      (sym (ap (λ x. x.workspace_id) a.2) ∙ w ∙ ap (λ x. x.workspace_id) b.2)

module _ (clock : Clock) where
  step-OneActive : {s t : Store} → Step clock s t → OneActive s → OneActive t
  step-OneActive (claims now p s c k) o = elim (claim-case now p s c k) [
    | inl n ↦ subst OneActive (sym n) o
    | inr w ↦ subst OneActive (sym w.2) (added-OneActive now p s o w.1)
  ]
  step-OneActive (ties k terminal_id s) o = elim (ties-case k terminal_id s) [
    | inl n ↦ subst OneActive (sym n) o
    | inr w ↦
        subst OneActive (sym w.3) (written-OneActive s _ s.events w.0 _ k o refl w.1 w.2 refl refl)
  ]
  step-OneActive (changes now k expected c s t b a m) o =
      elim (changes-case clock now k expected c s t b a m) [
        | inl n ↦ subst OneActive (sym n) o
        | inr w ↦ subst OneActive (sym w.4) (
            written-OneActive s _ (insert_file_run_event clock now (changed (w.0) c) s.events) w.0
              (changed (w.0) c) k o refl w.1 w.2 refl refl)
      ]
  step-OneActive (forgets gone s) o = forgotten-OneActive gone s o

  pub reaches-OneActive : {s t : Store} → Reaches clock s t → OneActive s → OneActive t
  reaches-OneActive here o = o
  reaches-OneActive (next q st) o = step-OneActive st (reaches-OneActive q o)

abbrev pub empty_store : Store
empty_store = record { runs = []; events = [] }

empty-OneActive : OneActive empty_store
unfolding find
empty-OneActive i j r q fi fj ai aj w = cc

-- After any transactions from empty tables, two active runs of one workspace are the same run.
pub one_active_run :
    (clock : Clock) {t : Store} (i j : Text) (r q : FileRun)
    → Reaches clock empty_store t
    → find t.runs i ≡ some r
    → find t.runs j ≡ some q
    → is_active r ≡ true
    → is_active q ≡ true
    → r.workspace_id ≡ q.workspace_id
    → i ≡ j
one_active_run clock i j r q h = reaches-OneActive clock h empty-OneActive i j r q
