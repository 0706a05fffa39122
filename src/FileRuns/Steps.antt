-- ===== src/FileRuns/Steps.antt =====
-- What a transaction on the file runs does to one row (termroom/db.py).
pub mod Forgotten
pub mod Final
pub mod Active
pub mod Once
pub mod Distinct
pub mod Keys
use termroom.Prelude.{
  ◌-◌, Bool, true, false, ◌&&◌, not, none, some, List, [], ◌∷◌, Text, text_eq, text_eq_iff, is_some,
  if◌then◌else◌, ◌≡◌, ◌⊎◌, inl, inr, arith, Bool-cases, Option-cases, ◌∙◌,
}
use termroom.Prelude.Result.{ok}
use termroom.FileRuns.Table.{
  RunState, is_terminal, same_state, FileRun, Store, find, is_active, active_in, keyed, amend,
  forget_terminals,
}
use termroom.FileRuns.Store.{Clock, ClaimPayload, Claimed, new_run, claim_file_run}
use termroom.FileRuns.Transition.{
  Changes, assigns, changed, insert_file_run_event, one_of, other_active, transition_file_run,
  set_file_run_terminal,
}

-- every state in the list is one of an active run
unfoldable pub all_active : List RunState → Bool
all_active [] = true
all_active (s ∷ ss) = not (is_terminal s) && all_active ss

-- one transaction, as the manager of file runs makes them, which changes active runs only, or a deletion
-- of terminals by the backends
pub data Step (clock : Clock) : Store → Store → Type 0 where
  claims :
      (now : Text) (p : ClaimPayload) (s : Store) (c : Claimed)
      → claim_file_run now p s ≡ ok c
      → Step clock s c.store
  ties :
      (id terminal_id : Text) (s : Store) → Step clock s (set_file_run_terminal id terminal_id s).1
  changes :
      (now id : Text) (expected : List RunState) (c : Changes) (s t : Store) (b : Bool)
      → all_active expected ≡ true
      → transition_file_run clock now id expected c s ≡ ok (b, t)
      → Step clock s t
  forgets : (gone : List Text) (s : Store) → Step clock s (forget_terminals gone s)

-- any number of them
pub data Reaches (clock : Clock) (s : Store) : Store → Type 0 where
  here : Reaches clock s s
  next : {t u : Store} → Reaches clock s t → Step clock t u → Reaches clock s u

pub reaches_trans :
    {clock : Clock} {s t u : Store} → Reaches clock s t → Reaches clock t u → Reaches clock s u
reaches_trans r here = r
reaches_trans r (next q st) = next (reaches_trans r q) st

pub same_terminal : (a b : RunState) → same_state a b ≡ true → is_terminal a ≡ is_terminal b
same_terminal a b h = ground arith

pub one_of-active :
    (expected : List RunState) (state : RunState)
    → all_active expected ≡ true
    → one_of expected state ≡ true
    → is_terminal state ≡ false
unfolding all_active one_of
one_of-active [] state a o = cc
one_of-active (s ∷ ss) state a o = ground (arith, same_terminal s state, one_of-active ss state)

pub find-amend :
    (rs : List FileRun) (row : FileRun) (j : Text)
    → find (amend rs row) j
      ≡ (if text_eq row.id j && is_some (find rs row.id) then some row else find rs j)
unfolding find amend
find-amend [] row j = ground arith
find-amend (r ∷ rs) row j =
    ground (
      arith,
      find-amend rs row j,
      text_eq_iff r.id row.id,
      text_eq_iff r.id j,
      text_eq_iff row.id j,
    )

-- a claim leaves the store alone, or adds a run with a new identifier to a workspace without an
-- active run
pub claim-case :
    (now : Text) (p : ClaimPayload) (s : Store) (c : Claimed)
    → claim_file_run now p s ≡ ok c
    → (c.store ≡ s)
      ⊎ ((find s.runs p.id ≡ none)
          × (active_in s.runs p.workspace_id ≡ none)
          × (c.store ≡ record s { runs = new_run p now ∷ s.runs }))
unfolding claim_file_run
claim-case now p s c h = elim (Option-cases (keyed s.runs p.workspace_id p.idempotency_key)) [
  | inr k ↦ inl (ground (arith, k.1, h))
  | inl n ↦ elim (Option-cases (active_in s.runs p.workspace_id)) [
    | inr a ↦ inl (ground (arith, n, a.1, h))
    | inl m ↦ inr (ground (arith, n, m, h))
  ]
]

-- a run is tied to a terminal if it is active
pub ties-case :
    (id terminal_id : Text) (s : Store)
    → ((set_file_run_terminal id terminal_id s).1 ≡ s)
      ⊎ ((r : FileRun) × (find s.runs id ≡ some r)
          × (is_active r ≡ true)
          × ((set_file_run_terminal id terminal_id s).1
              ≡ record s { runs = amend s.runs (record r { terminal_id = some terminal_id }) }))
unfolding set_file_run_terminal
ties-case id terminal_id s = elim (Option-cases (find s.runs id)) [
  | inl n ↦ inl (ground (arith, n))
  | inr r ↦ elim (Bool-cases (is_active r.0)) [
    | inl a ↦ inr (r.0, r.1, a, ground (arith, r.1, a))
    | inr d ↦ inl (ground (arith, r.1, d))
  ]
]

-- a transition leaves the store alone, or writes one row, which was active, and its event
pub changes-case :
    (clock : Clock) (now id : Text) (expected : List RunState) (c : Changes) (s t : Store)
    (b : Bool)
    → all_active expected ≡ true
    → transition_file_run clock now id expected c s ≡ ok (b, t)
    → (t ≡ s)
      ⊎ ((r : FileRun) × (find s.runs id ≡ some r)
          × (is_active r ≡ true)
          × ((is_active (changed r c) && other_active s.runs r) ≡ false)
          × (t ≡ record {
            runs = amend s.runs (changed r c);
            events = insert_file_run_event clock now (changed r c) s.events;
          }))
unfolding transition_file_run
changes-case clock now id expected c s t b a h = elim (Option-cases (find s.runs id)) [
  | inl n ↦ inl (ground (arith, n, h))
  | inr r ↦ elim (Bool-cases (one_of expected r.0.state)) [
    | inr d ↦ inl (ground (arith, r.1, d, h))
    | inl o ↦
        let v = one_of-active expected r.0.state a o in
        elim (Bool-cases (assigns c)) [
          | inr e ↦ inl (ground (arith, e, h))
          | inl w ↦ inr (
            r.0,
            r.1,
            ground (arith, v),
            ground (arith, r.1, o, w, h),
            ground (arith, r.1, o, w, h, v),
          )
        ]
  ]
]

pub find-id : (rs : List FileRun) (id : Text) (r : FileRun) → find rs id ≡ some r → r.id ≡ id
unfolding find
find-id [] id r h = cc
find-id (q ∷ rs) id r h = ground (arith, find-id rs id r, text_eq_iff q.id id)

-- a row written over the run `q`, which keeps its identifier
pub find-written :
    (rs : List FileRun) (q row : FileRun) (id j : Text)
    → find rs id ≡ some q
    → row.id ≡ q.id
    → find (amend rs row) j ≡ (if text_eq id j then some row else find rs j)
find-written rs q row id j f e =
    let i = e ∙ find-id rs id q f in find-amend rs row j ∙ ground (arith, i, f)
