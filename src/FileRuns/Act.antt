-- ===== src/FileRuns/Act.antt =====
-- Calls that read and write the store and may raise (termroom/file_runs.py); what they wrote stays.
use termroom.Prelude.{Bool, List, Text}
use termroom.Prelude.Result.{Result, ok, err}
use termroom.FileRuns.Table.{RunState, FileRun, Store}
use termroom.FileRuns.Store.{StoreError, Clock, ClaimPayload, Claimed, claim_file_run}
use termroom.FileRuns.Transition.{Changes, transition_file_run, set_file_run_terminal}

-- exceptions of the inspection and of the backends: `FileConflictError`, `UnsupportedFileError` and
-- `ValueError`; `RemoteAccessError` and `SSHBackendError`; `OSError` and `TerminalError`; any other
pub data Fault : Type 0 where
  conflict remote_fault local_fault other_fault : Fault

pub data Raised : Type 0 where
  faults : Fault → Raised
  unknown_run not_supported runner_not_supported unconfirmed : Raised
  slot_occupied : FileRun → Raised
  store_raises : StoreError → Raised

abbrev pub Act : Type 0 → Type 0
Act A = Store → Store × Result Raised A

infixl 5 ◌>>=◌ ◌>>◌
abbrev pub next_act :
    {A B : Type 0} → (A → Act B) → Store × Result Raised A → Store × Result Raised B
next_act f (s, ok a) = f a s
next_act f (s, err e) = (s, err e)

abbrev pub ◌>>=◌ : {A B : Type 0} → Act A → (A → Act B) → Act B
(m >>= f) s = next_act f (m s)

abbrev pub ◌>>◌ : {A B : Type 0} → Act A → Act B → Act B
(m >> k) s = next_act (λ a. k) (m s)

abbrev pub pure : {A : Type 0} → A → Act A
pure a s = (s, ok a)

abbrev pub throw : {A : Type 0} → Raised → Act A
throw e s = (s, err e)

-- what an inspection or a backend gives
abbrev pub outside : {A : Type 0} → Result Fault A → Act A
outside (ok a) s = (s, ok a)
outside (err e) s = (s, err (faults e))

-- `try: m except ...: handler`
abbrev pub handled :
    {A : Type 0} → (Raised → Act A) → Store × Result Raised A → Store × Result Raised A
handled handler (s, ok a) = (s, ok a)
handled handler (s, err e) = handler e s

abbrev pub catch : {A : Type 0} → Act A → (Raised → Act A) → Act A
catch m handler s = handled handler (m s)

abbrev pub updated : {A : Type 0} → Store → Result StoreError (A × Store) → Store × Result Raised A
updated s (ok (a, t)) = (t, ok a)
updated s (err e) = (s, err (store_raises e))

unfoldable pub transition : Clock → (now id : Text) → List RunState → Changes → Act Bool
unfolding transition_file_run
transition clock now id expected c s = updated s (transition_file_run clock now id expected c s)

unfoldable pub tie : (id terminal_id : Text) → Act Bool
unfolding set_file_run_terminal
tie id terminal_id s =
    ((set_file_run_terminal id terminal_id s).1, ok (set_file_run_terminal id terminal_id s).0)

abbrev pub claimed_by : Store → Result StoreError Claimed → Store × Result Raised Claimed
claimed_by s (ok c) = (c.store, ok c)
claimed_by s (err e) = (s, err (store_raises e))

unfoldable pub claim : Text → ClaimPayload → Act Claimed
unfolding claim_file_run
claim now p s = claimed_by s (claim_file_run now p s)
