-- ===== src/FileRuns/Traced/Start.antt =====
-- `start` changes the store by transactions only (termroom/file_runs.py).
use termroom.Prelude.{
  Bool, true, false, ◌&&◌, ◌||◌, not, Option, none, some, [], ◌∷◌, Text, codes, text_eq, refl,
}
use termroom.Prelude.Result.{Result, ok, err}
use termroom.FileRuns.Table.{preparing, is_terminal, FileRun}
use termroom.FileRuns.Store.{
  key_reused, states_invalid, integrity, Clock, Claim, idempotent, occupied, created,
}
use termroom.FileRuns.Transition.{Changes}
use termroom.FileRuns.Act.{
  Fault, conflict, remote_fault, local_fault, other_fault, Raised, faults, unknown_run,
  not_supported, runner_not_supported, unconfirmed, slot_occupied, store_raises,
}
use termroom.FileRuns.Runner.{RunnableFile, ResolvedRunner, resolve_runner}
use termroom.FileRuns.Steps.{all_active}
use termroom.FileRuns.Manager.{is_uuid, is_workspace_id, is_remote, eligible_workspace, Observation}
use termroom.FileRuns.Start.{
  Request, payload_of, confirm, failure, unknown_status, settle, told_by, dispatch_file, run_with,
  ask_backend, backend_failed, recover, dispatch, proceed, start,
}
use termroom.FileRuns.Traced.{
  IsTraced, then-IsTraced, catch-IsTraced, pure-IsTraced, throw-IsTraced, outside-IsTraced,
  branch-IsTraced, transition-IsTraced, tie-IsTraced, claim-IsTraced, get-IsTraced,
  apply_observation-IsTraced, reconcile-IsTraced,
}

module _ (clock : Clock) (now : Text) where
  settle-IsTraced : (id : Text) (c : Changes) → IsTraced clock (settle clock now id c)
  unfolding all_active
  settle-IsTraced id c =
      then-IsTraced clock (transition-IsTraced clock now id (preparing ∷ []) c refl)
        (λ written. then-IsTraced clock (get-IsTraced clock now id) (λ run. pure-IsTraced clock))

  told_by-IsTraced :
      (q : Request) (x : Result Fault Observation) → IsTraced clock (told_by clock now q x)
  told_by-IsTraced q (err conflict) = throw-IsTraced clock
  told_by-IsTraced q (err other_fault) = throw-IsTraced clock
  told_by-IsTraced q (err remote_fault) =
      settle-IsTraced q.new_id (unknown_status clock now q.detail)
  told_by-IsTraced q (err local_fault) =
      settle-IsTraced q.new_id (unknown_status clock now q.detail)
  told_by-IsTraced q (ok o) =
      branch-IsTraced clock (text_eq o.state (codes "lost"))
        (settle-IsTraced q.new_id (failure clock now (codes "start_failed") q.detail))
        (then-IsTraced clock (get-IsTraced clock now q.new_id) (λ current.
          then-IsTraced clock (apply_observation-IsTraced clock now current o) (λ a.
            then-IsTraced clock (get-IsTraced clock now q.new_id) (λ run. pure-IsTraced clock))))

  backend_failed-IsTraced :
      (q : Request) (attempted : Bool) → IsTraced clock (backend_failed clock now q attempted)
  unfolding ask_backend
  backend_failed-IsTraced q attempted =
      branch-IsTraced clock (attempted && is_remote q.workspace) (told_by-IsTraced q q.status)
        (settle-IsTraced q.new_id (failure clock now (codes "start_failed") q.detail))

  recover-IsTraced :
      (q : Request) (attempted : Bool) (e : Raised)
      → IsTraced clock (recover clock now q attempted e)
  recover-IsTraced q attempted (faults conflict) =
      settle-IsTraced q.new_id (failure clock now (codes "source_changed") q.detail)
  recover-IsTraced q attempted (faults remote_fault) = backend_failed-IsTraced q attempted
  recover-IsTraced q attempted (faults local_fault) = backend_failed-IsTraced q attempted
  recover-IsTraced q attempted (faults other_fault) = throw-IsTraced clock
  recover-IsTraced q attempted (store_raises key_reused) =
      settle-IsTraced q.new_id (failure clock now (codes "source_changed") q.detail)
  recover-IsTraced q attempted (store_raises states_invalid) =
      settle-IsTraced q.new_id (failure clock now (codes "source_changed") q.detail)
  recover-IsTraced q attempted (store_raises integrity) = throw-IsTraced clock
  recover-IsTraced q attempted unconfirmed = backend_failed-IsTraced q attempted
  recover-IsTraced q attempted unknown_run = throw-IsTraced clock
  recover-IsTraced q attempted not_supported = throw-IsTraced clock
  recover-IsTraced q attempted runner_not_supported = throw-IsTraced clock
  recover-IsTraced q attempted (slot_occupied r) = throw-IsTraced clock

  dispatch_file-IsTraced :
      (q : Request) (x : Result Fault RunnableFile) → IsTraced clock (dispatch_file clock now q x)
  dispatch_file-IsTraced q (err fault) = recover-IsTraced q false (faults fault)
  dispatch_file-IsTraced q (ok f) =
      catch-IsTraced clock
        (then-IsTraced clock (outside-IsTraced clock q.dispatched) (λ terminal_id.
          then-IsTraced clock (tie-IsTraced clock q.new_id terminal_id) (λ tied.
            then-IsTraced clock (reconcile-IsTraced clock now q.new_id q.observed)
              (λ r. pure-IsTraced clock))))
        (recover-IsTraced q true)

  proceed-IsTraced :
      (q : Request) (runner : ResolvedRunner) (c : Claim) (run : FileRun)
      → IsTraced clock (proceed clock now q runner c run)
  unfolding dispatch
  proceed-IsTraced q runner idempotent run =
      branch-IsTraced clock (is_terminal run.state)
        (then-IsTraced clock (get-IsTraced clock now run.id) (λ row. pure-IsTraced clock))
        (then-IsTraced clock (reconcile-IsTraced clock now run.id q.observed)
          (λ r. pure-IsTraced clock))
  proceed-IsTraced q runner occupied run = throw-IsTraced clock
  proceed-IsTraced q runner created run = dispatch_file-IsTraced q (confirm runner q.confirmed)

  run_with-IsTraced :
      (q : Request) (f : RunnableFile) (x : Option (Option ResolvedRunner))
      → IsTraced clock (run_with clock now q f x)
  run_with-IsTraced q f none = throw-IsTraced clock
  run_with-IsTraced q f (some none) = throw-IsTraced clock
  run_with-IsTraced q f (some (some runner)) =
      then-IsTraced clock (claim-IsTraced clock now (payload_of q f runner))
        (λ c. proceed-IsTraced q runner c.claim c.run)

  pub start-IsTraced : (q : Request) → IsTraced clock (start clock now q)
  unfolding start
  start-IsTraced q =
      branch-IsTraced clock (not (eligible_workspace q.workspace)) (throw-IsTraced clock) (
        branch-IsTraced clock
          (not (is_workspace_id q.workspace.id) || not (is_uuid q.idempotency_key))
          (throw-IsTraced clock)
          (then-IsTraced clock (outside-IsTraced clock q.inspected)
            (λ f. run_with-IsTraced q f (resolve_runner f))))
