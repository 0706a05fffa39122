-- ===== src/FileRuns/Start.antt =====
-- `start` of `FileRunManager` (termroom/file_runs.py), without the clean-up of old history, and without the
-- terminals that the backends delete.
use termroom.Prelude.{
  Bool, true, false, ◌&&◌, ◌||◌, not, Option, none, some, [], ◌∷◌, Text, codes, text_eq, ◌==◌,
  if◌then◌else◌,
}
use termroom.Prelude.Result.{Result, ok, err}
use termroom.FileRuns.Table.{preparing, failed, is_terminal, FileRun}
use termroom.FileRuns.Store.{
  key_reused, states_invalid, Clock, ClaimPayload, Claim, idempotent, occupied, created, same_texts,
}
use termroom.FileRuns.Transition.{Changes, no_changes}
use termroom.FileRuns.Act.{
  Fault, conflict, remote_fault, local_fault, other_fault, Raised, faults, not_supported,
  runner_not_supported, unconfirmed, slot_occupied, store_raises, Act, ◌>>=◌, pure, throw, outside,
  catch, transition, tie, claim,
}
use termroom.FileRuns.Runner.{RunnableFile, ResolvedRunner, resolve_runner}
use termroom.FileRuns.Manager.{
  is_uuid, is_workspace_id, Workspace, is_remote, eligible_workspace, Observation, get,
  apply_observation, Reconciled, reconcile,
}

-- the arguments of a call, and what the inspections, the backend and its observations give while it runs
pub record Request : Type 0 where
  pub workspace : Workspace
  pub idempotency_key : Text
  pub new_id : Text
  pub inspected : Result Fault RunnableFile
  pub confirmed : Result Fault RunnableFile
  pub dispatched : Result Fault Text
  pub observed : Result Fault Observation
  pub status : Result Fault Observation
  pub detail : Text

pub record Started : Type 0 where
  pub run : FileRun
  pub connection : Option Bool

abbrev pub with_connection : Reconciled → Started
with_connection r = record { run = r.run; connection = some r.online }

abbrev pub without_connection : FileRun → Started
without_connection r = record { run = r; connection = none }

abbrev pub payload_of : Request → RunnableFile → ResolvedRunner → ClaimPayload
payload_of q f runner = record {
  id = q.new_id;
  workspace_id = q.workspace.id;
  idempotency_key = q.idempotency_key;
  relative_path = f.relative_path;
  source_digest = f.digest;
  runner_id = runner.id;
  runner_version = runner.version;
  argv = runner.argv;
}

-- equality of two runners
abbrev pub same_runner : ResolvedRunner → ResolvedRunner → Bool
same_runner a b =
    text_eq a.id b.id
    && a.version == b.version
    && same_texts a.argv b.argv
    && text_eq a.runtime_error_code b.runtime_error_code

-- the second inspection, before the run is dispatched
abbrev pub confirmed_as :
    ResolvedRunner → RunnableFile → Option (Option ResolvedRunner) → Result Fault RunnableFile
confirmed_as runner f none = err conflict
confirmed_as runner f (some none) = err conflict
confirmed_as runner f (some (some again)) = if same_runner again runner then ok f else err conflict

unfoldable pub confirm : ResolvedRunner → Result Fault RunnableFile → Result Fault RunnableFile
unfolding resolve_runner same_texts
confirm runner (err fault) = err fault
confirm runner (ok f) = confirmed_as runner f (resolve_runner f)

module _ (clock : Clock) (now : Text) where
  abbrev pub failure : (code detail : Text) → Changes
  failure code detail = record no_changes {
    state = some failed;
    ended_at = some (some now);
    error_code = some (some code);
    error_detail = some (some detail);
  }

  abbrev pub unknown_status : (detail : Text) → Changes
  unknown_status detail = record no_changes {
    state = some preparing;
    error_code = some (some (codes "start_status_unknown"));
    error_detail = some (some detail);
  }

  -- a transition out of `preparing`, and the row that it leaves
  abbrev pub settle : Text → Changes → Act Started
  settle id c = do
    written ← transition clock now id (preparing ∷ []) c
    run ← get clock now id
    pure (without_connection run)

  -- a backend that failed may have started the run: what it says of it
  abbrev pub told_by : Request → Result Fault Observation → Act Started
  told_by q (err conflict) = throw (faults conflict)
  told_by q (err other_fault) = throw (faults other_fault)
  told_by q (err remote_fault) = settle q.new_id (unknown_status q.detail)
  told_by q (err local_fault) = settle q.new_id (unknown_status q.detail)
  told_by q (ok o) =
      if text_eq o.state (codes "lost")
      then settle q.new_id (failure (codes "start_failed") q.detail)
      else (do
        current ← get clock now q.new_id
        applied ← apply_observation clock now current o
        run ← get clock now q.new_id
        pure (record { run = run; connection = some true }))

  unfoldable pub ask_backend : Request → Act Started
  unfolding transition get apply_observation
  ask_backend q = told_by q q.status

  abbrev pub backend_failed : Request → (dispatch_attempted : Bool) → Act Started
  backend_failed q dispatch_attempted =
      if dispatch_attempted && is_remote q.workspace
      then ask_backend q
      else settle q.new_id (failure (codes "start_failed") q.detail)

  -- the `except` clauses
  abbrev pub recover : Request → (dispatch_attempted : Bool) → Raised → Act Started
  recover q attempted (faults conflict) =
      settle q.new_id (failure (codes "source_changed") q.detail)
  recover q attempted (faults remote_fault) = backend_failed q attempted
  recover q attempted (faults local_fault) = backend_failed q attempted
  recover q attempted (store_raises key_reused) =
      settle q.new_id (failure (codes "source_changed") q.detail)
  recover q attempted (store_raises states_invalid) =
      settle q.new_id (failure (codes "source_changed") q.detail)
  recover q attempted unconfirmed = backend_failed q attempted
  recover q attempted e = throw e

  -- the `try` statement
  abbrev pub dispatch_file : Request → Result Fault RunnableFile → Act Started
  dispatch_file q (err fault) = recover q false (faults fault)
  dispatch_file q (ok f) =
      catch
        (do
          terminal_id ← outside q.dispatched
          tied ← tie q.new_id terminal_id
          r ← reconcile clock now q.new_id q.observed
          pure (with_connection r))
        (recover q true)

  unfoldable pub dispatch : Request → ResolvedRunner → Act Started
  unfolding confirm transition get ask_backend tie reconcile
  dispatch q runner = dispatch_file q (confirm runner q.confirmed)

  -- what a claim leads to
  abbrev pub proceed : Request → ResolvedRunner → Claim → FileRun → Act Started
  proceed q runner idempotent run =
      if is_terminal run.state
      then (do row ← get clock now run.id; pure (without_connection row))
      else (do r ← reconcile clock now run.id q.observed; pure (with_connection r))
  proceed q runner occupied run = throw (slot_occupied run)
  proceed q runner created run = dispatch q runner

  abbrev pub run_with : Request → RunnableFile → Option (Option ResolvedRunner) → Act Started
  run_with q f none = throw (faults conflict)
  run_with q f (some none) = throw runner_not_supported
  run_with q f (some (some runner)) = do
    c ← claim now (payload_of q f runner)
    proceed q runner c.claim c.run

  unfoldable pub start : Request → Act Started
  unfolding eligible_workspace is_workspace_id is_uuid resolve_runner claim get reconcile dispatch
  start q =
      if not (eligible_workspace q.workspace)
      then throw not_supported
      else if not (is_workspace_id q.workspace.id) || not (is_uuid q.idempotency_key)
      then throw (faults conflict)
      else (do f ← outside q.inspected; run_with q f (resolve_runner f))
