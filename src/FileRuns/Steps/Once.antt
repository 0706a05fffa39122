-- ===== src/FileRuns/Steps/Once.antt =====
-- Every run that has ended has one event, and no other run has any (termroom/db.py).
use termroom.Prelude.{
  ℕ, ◌+◌, true, false, ◌&&◌, Option, none, some, List, [], ◌∷◌, Text, text_eq, text_eq_iff,
  if◌then◌else◌, ◌≡◌, inl, inr, refl, sym, ap, subst, arith, ◌∙◌,
}
use termroom.FileRuns.Table.{
  is_terminal, FileRun, Event, Store, find, is_active, amend, forget_terminals,
}
use termroom.FileRuns.Steps.Forgotten.{forgotten, find-forgotten}
use termroom.FileRuns.Store.{Clock, ClaimPayload, new_run}
use termroom.FileRuns.Transition.{changed, has_event, insert_file_run_event}
use termroom.FileRuns.Steps.{
  Step, claims, ties, changes, forgets, Reaches, here, next, claim-case, ties-case, changes-case,
  find-id, find-written,
}
use termroom.FileRuns.Steps.Active.{empty_store}

-- the number of events of a run
unfoldable pub count : List Event → Text → ℕ
count [] id = 0
count (e ∷ es) id = (if text_eq e.subject_id id then 1 else 0) + count es id

abbrev pub told : Option FileRun → ℕ
told none = 0
told (some r) = if is_terminal r.state then 1 else 0

abbrev pub AllTold : Store → Type 0
AllTold s = (id : Text) → count s.events id ≡ told (find s.runs id)

has_event-count :
    (es : List Event) (id : Text) (revision : ℕ)
    → count es id ≡ 0
    → has_event es id revision ≡ false
unfolding count has_event
has_event-count [] id revision h = refl
has_event-count (e ∷ es) id revision h = ground (arith, has_event-count es id revision)

count-insert :
    (clock : Clock) (now : Text) (r : FileRun) (es : List Event) (j : Text)
    → count es r.id ≡ 0
    → count (insert_file_run_event clock now r es) j
      ≡ (if is_terminal r.state && text_eq r.id j then 1 else 0) + count es j
unfolding count insert_file_run_event
count-insert clock now r es j h = ground (arith, has_event-count es r.id r.lifecycle_revision h)

active-told : (q : FileRun) → is_active q ≡ true → told (some q) ≡ 0
active-told q a = ground (arith, a)

written-AllTold :
    (clock : Clock) (now : Text) (s : Store) (q row : FileRun) (k : Text)
    → AllTold s
    → find s.runs k ≡ some q
    → is_active q ≡ true
    → row.id ≡ q.id
    → AllTold
        (record { runs = amend s.runs row; events = insert_file_run_event clock now row s.events })
written-AllTold clock now s q row k v f a e j =
    let i = find-id s.runs k q f in
    let z = v k ∙ ap told f ∙ active-told q a in
    let c = count-insert clock now row s.events j (ap (count s.events) (e ∙ i) ∙ z) in
    let g = find-written s.runs q row k j f e in ground (arith, c, g, v j, text_eq_iff k j, z, i, e)

added-AllTold :
    (now : Text) (p : ClaimPayload) (s : Store)
    → AllTold s
    → find s.runs p.id ≡ none
    → AllTold (record s { runs = new_run p now ∷ s.runs })
unfolding find
added-AllTold now p s v n id = ground (arith, v id, n, text_eq_iff p.id id)

tied-AllTold :
    (s : Store) (q row : FileRun) (k : Text)
    → AllTold s
    → find s.runs k ≡ some q
    → is_terminal row.state ≡ is_terminal q.state
    → row.id ≡ q.id
    → AllTold (record s { runs = amend s.runs row })
tied-AllTold s q row k v f a e id =
    let g = find-written s.runs q row k id f e in ground (arith, v id, g, text_eq_iff k id, f, a)

told-forgotten : (gone : List Text) (x : Option FileRun) → told (forgotten gone x) ≡ told x
told-forgotten gone none = refl
told-forgotten gone (some r) = refl

forgotten-AllTold : (gone : List Text) (s : Store) → AllTold s → AllTold (forget_terminals gone s)
unfolding forget_terminals
forgotten-AllTold gone s v id =
    v id
    ∙ sym (told-forgotten gone (find s.runs id))
    ∙ sym (ap told (find-forgotten gone s.runs id))

module _ (clock : Clock) where
  step-AllTold : {s t : Store} → Step clock s t → AllTold s → AllTold t
  step-AllTold (claims now p s c k) v = elim (claim-case now p s c k) [
    | inl n ↦ subst AllTold (sym n) v
    | inr w ↦ subst AllTold (sym w.2) (added-AllTold now p s v w.0)
  ]
  step-AllTold (ties k terminal_id s) v = elim (ties-case k terminal_id s) [
    | inl n ↦ subst AllTold (sym n) v
    | inr w ↦
        subst AllTold (sym w.3)
          (tied-AllTold s w.0 (record (w.0) { terminal_id = some terminal_id }) k v w.1 refl refl)
  ]
  step-AllTold (changes now k expected c s t b a m) v =
      elim (changes-case clock now k expected c s t b a m) [
        | inl n ↦ subst AllTold (sym n) v
        | inr w ↦
            subst AllTold (sym w.4)
              (written-AllTold clock now s w.0 (changed (w.0) c) k v w.1 w.2 refl)
      ]
  step-AllTold (forgets gone s) v = forgotten-AllTold gone s v

  reaches-AllTold : {s t : Store} → Reaches clock s t → AllTold s → AllTold t
  reaches-AllTold here v = v
  reaches-AllTold (next q st) v = step-AllTold st (reaches-AllTold q v)

empty-AllTold : AllTold empty_store
unfolding count find
empty-AllTold id = refl

-- After any transactions from empty tables, a run has one event if it has ended, and none otherwise: it
-- is told once that a run ended, however often its end is observed.
pub one_event :
    (clock : Clock) {t : Store} (id : Text)
    → Reaches clock empty_store t
    → count t.events id ≡ told (find t.runs id)
one_event clock id h = reaches-AllTold clock h empty-AllTold id
