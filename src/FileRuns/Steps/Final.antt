-- ===== src/FileRuns/Steps/Final.antt =====
-- A run that has ended keeps its row (termroom/db.py).
use termroom.Prelude.{
  true, Option, none, some, List, Text, text_eq_iff, ◌≡◌, ◌⊎◌, inl, inr, refl, ap, arith, ◌∙◌,
}
use termroom.FileRuns.Table.{
  is_terminal, FileRun, Store, find, is_active, amend, kept_terminal, forget_terminals,
}
use termroom.FileRuns.Steps.Forgotten.{forgotten, find-forgotten, kept_terminal-cases}
use termroom.FileRuns.Store.{Clock}
use termroom.FileRuns.Steps.{
  Step, claims, ties, changes, forgets, Reaches, here, next, claim-case, ties-case, changes-case,
  find-written,
}

module _ (clock : Clock) (id : Text) (r : FileRun) (e : is_terminal r.state ≡ true) where
  written-final :
      (rs : List FileRun) (x : Option Text) (q row : FileRun) (k : Text)
      → find rs k ≡ some q
      → is_active q ≡ true
      → row.id ≡ q.id
      → find rs id ≡ some (record r { terminal_id = x })
      → find (amend rs row) id ≡ some (record r { terminal_id = x })
  written-final rs x q row k f a i h =
      find-written rs q row k id f i ∙ ground (arith, text_eq_iff k id, f, a, h, e)

  -- the row, with its terminal or none
  record Kept (s : Store) : Type 0 where
    terminal : Option Text
    row : find s.runs id ≡ some (record r { terminal_id = terminal })
    known : (terminal ≡ r.terminal_id) ⊎ (terminal ≡ none)

  forgotten-Kept : (gone : List Text) (s : Store) → Kept s → Kept (forget_terminals gone s)
  unfolding forget_terminals
  forgotten-Kept gone s v = record {
    terminal = kept_terminal gone v.terminal;
    row = find-forgotten gone s.runs id ∙ ap (forgotten gone) v.row;
    known = elim (kept_terminal-cases gone v.terminal) [
      | inr n ↦ inr n
      | inl k ↦ elim v.known [ inl t ↦ inl (k ∙ t) | inr n ↦ inr (k ∙ n) ]
    ];
  }

  found-Kept :
      (s t : Store) (v : Kept s)
      → (find s.runs id ≡ some (record r { terminal_id = v.terminal })
          → find t.runs id ≡ some (record r { terminal_id = v.terminal }))
      → Kept t
  found-Kept s t v f = record { terminal = v.terminal; row = f v.row; known = v.known }

  step-Kept : {s t : Store} → Step clock s t → Kept s → Kept t
  unfolding find
  step-Kept (claims now p s c k) v = elim (claim-case now p s c k) [
    | inl n ↦ found-Kept s c.store v (λ h. ap (λ u. find u.runs id) n ∙ h)
    | inr w ↦
        found-Kept s c.store v
          (λ h. ap (λ u. find u.runs id) w.2 ∙ ground (arith, text_eq_iff p.id id, w.0, h))
  ]
  step-Kept (ties k terminal_id s) v = elim (ties-case k terminal_id s) [
    | inl n ↦ found-Kept s _ v (λ h. ap (λ u. find u.runs id) n ∙ h)
    | inr w ↦
        found-Kept s _ v (λ h.
          ap (λ u. find u.runs id) w.3 ∙ written-final s.runs v.terminal w.0 _ k w.1 w.2 refl h)
  ]
  step-Kept (changes now k expected c s t b a m) v =
      elim (changes-case clock now k expected c s t b a m) [
        | inl n ↦ found-Kept s t v (λ h. ap (λ u. find u.runs id) n ∙ h)
        | inr w ↦ found-Kept s t v (λ h.
            ap (λ u. find u.runs id) w.4 ∙ written-final s.runs v.terminal w.0 _ k w.1 w.2 refl h)
      ]
  step-Kept (forgets gone s) v = forgotten-Kept gone s v

  reaches-Kept : {s t : Store} → Reaches clock s t → Kept s → Kept t
  reaches-Kept here v = v
  reaches-Kept (next q st) v = step-Kept st (reaches-Kept q v)

-- A run that has ended keeps its row, but for the reference to its terminal, which is kept or cleared,
-- through any claims, ties to terminals, transitions out of active states and deletions of terminals,
-- in any order. The clean-up of old history and the deletion of a workspace, which delete rows of runs,
-- are left out.
pub ended_run_kept :
    (clock : Clock) (s t : Store) (id : Text) (r : FileRun)
    → Reaches clock s t
    → find s.runs id ≡ some r
    → is_terminal r.state ≡ true
    → (terminal : Option Text) × (find t.runs id ≡ some (record r { terminal_id = terminal }))
      × ((terminal ≡ r.terminal_id) ⊎ (terminal ≡ none))
ended_run_kept clock s t id r h f e =
    let v =
      reaches-Kept clock id r e h
        (record { terminal = r.terminal_id; row = f; known = inl refl }) in
    (v.terminal, v.row, v.known)
