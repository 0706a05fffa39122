-- ===== src/FileRuns/Manager.antt =====
-- `FileRunManager` of termroom/file_runs.py. What the workspaces, the inspection of files and the
-- backends give is an argument of each call, and so is the time; the clean-up of old history that
-- `start` makes every six hours is a step of its own and not here.
use termroom.Prelude.{
  ℕ, suc, Bool, true, false, ◌&&◌, ◌||◌, not, Option, none, some, List, [], ◌∷◌, Text, codes,
  text_eq, is_empty, length, leb, ◌==◌, if◌then◌else◌,
}
use termroom.Prelude.Result.{Result, ok, err}
use termroom.Prelude.Split.{any}
use termroom.Prelude.Integers.{ℤ}
use termroom.FileRuns.Table.{
  RunState, preparing, running, finished, stopped, failed, lost, is_terminal, same_state, FileRun,
  find,
}
use termroom.FileRuns.Store.{Clock}
use termroom.FileRuns.Transition.{Changes, no_changes, given, first_text}
use termroom.FileRuns.Act.{
  Fault, conflict, remote_fault, faults, unknown_run, unconfirmed, Act, ◌>>=◌, pure, throw, outside,
  updated, transition,
}

-- `_validate_uuid`: a version 4 UUID in its canonical form
abbrev pub is_hex : ℕ → Bool
is_hex c = (leb b'0' c && leb c b'9') || (leb b'a' c && leb c b'f')

abbrev pub fits_uuid : ℕ → ℕ → Bool
fits_uuid position c =
    if position == 8 || position == 13 || position == 18 || position == 23
    then c == b'-'
    else if position == 14
    then c == b'4'
    else if position == 19
    then c == b'8' || c == b'9' || c == b'a' || c == b'b'
    else is_hex c

unfoldable pub all_fit : ℕ → Text → Bool
all_fit position [] = true
all_fit position (c ∷ s) = fits_uuid position c && all_fit (suc position) s

unfoldable pub is_uuid : Text → Bool
unfolding all_fit
is_uuid t = length t == 36 && all_fit 0 t

-- `_validate_workspace_id`
abbrev pub is_id_character : ℕ → Bool
is_id_character c =
    (leb b'a' c && leb c b'z')
    || (leb b'A' c && leb c b'Z')
    || (leb b'0' c && leb c b'9')
    || c == b'-'
    || c == b'_'

unfoldable pub is_workspace_id : Text → Bool
is_workspace_id t = not (is_empty t) && not (any (λ c. not (is_id_character c)) t)

-- what `_eligible_workspace` reads of a workspace, and whether its Node supports file runs
pub record Workspace : Type 0 where
  pub id : Text
  pub workspace_kind : Text
  pub transient : Bool
  pub backend_kind : Text
  pub connection_method : Option Text
  pub node_supported : Bool

abbrev pub is_remote : Workspace → Bool
is_remote w = text_eq w.backend_kind (codes "remote")

abbrev pub is_method : Workspace → Text → Bool
is_method w method = elim w.connection_method [ none ↦ false | some m ↦ text_eq m method ]

unfoldable pub eligible_workspace : Workspace → Bool
eligible_workspace w =
    (is_empty w.workspace_kind || text_eq w.workspace_kind (codes "workspace"))
    && not w.transient
    && (not (is_remote w)
        || (if is_method w (codes "node") then w.node_supported else is_method w (codes "ssh")))

pub record Observation : Type 0 where
  pub state : Text
  pub started_at : Option Text
  pub ended_at : Option Text
  pub exit_code : Option ℤ
  pub error_code : Option Text
  pub error_detail : Option Text

-- the state that an observation names
unfoldable pub state_of : Text → Option RunState
state_of t =
    if text_eq t (codes "preparing")
    then some preparing
    else if text_eq t (codes "running")
    then some running
    else if text_eq t (codes "finished")
    then some finished
    else if text_eq t (codes "stopped")
    then some stopped
    else if text_eq t (codes "failed")
    then some failed
    else if text_eq t (codes "lost")
    then some lost
    else none

-- `a or b`
abbrev pub or_text : Option Text → Option Text → Option Text
or_text a b = if is_empty (given a) then b else a

abbrev pub live : List RunState
live = preparing ∷ running ∷ []

pub record Reconciled : Type 0 where
  pub run : FileRun
  pub online : Bool

pub record Stopped : Type 0 where
  pub run : FileRun
  pub needs_force : Bool

module _ (clock : Clock) (now : Text) where
  -- `get`
  unfoldable pub get : Text → Act FileRun
  unfolding is_uuid find
  get id s =
      if not (is_uuid id)
      then throw (faults conflict) s
      else elim (find s.runs id) [ none ↦ throw unknown_run s | some r ↦ pure r s ]

  -- what an observed state changes
  abbrev pub observed_changes : FileRun → Observation → RunState → Changes
  observed_changes run o running = record no_changes {
    state = some running;
    started_at = some (some (first_text (or_text o.started_at run.started_at) now));
    error_code = some none;
    error_detail = some none;
  }
  observed_changes run o state = record {
    state = some state;
    started_at = some (or_text o.started_at run.started_at);
    stop_requested_at = none;
    ended_at = some (some (first_text o.ended_at now));
    exit_code = some o.exit_code;
    error_code = some o.error_code;
    error_detail = some o.error_detail;
  }

  -- `_apply_observation`
  abbrev pub applied : FileRun → Observation → Option RunState → Act (Unit {0})
  applied run o none = pure tt
  applied run o (some state) =
      if is_terminal run.state || same_state state preparing
      then pure tt
      else (do done ← transition clock now run.id live (observed_changes run o state); pure tt)

  unfoldable pub apply_observation : FileRun → Observation → Act (Unit {0})
  unfolding state_of transition
  apply_observation run o = applied run o (state_of o.state)

  abbrev pub seen : FileRun → Result Fault Observation → Act Reconciled
  seen run (ok o) = do
    applied ← apply_observation run o
    updated ← get run.id
    pure (record { run = updated; online = true })
  seen run (err remote_fault) = pure (record { run = run; online = false })
  seen run (err fault) = throw (faults fault)

  -- `reconcile`
  unfoldable pub reconcile : Text → Result Fault Observation → Act Reconciled
  unfolding get apply_observation
  reconcile id observed = do
    run ← get id
    if is_terminal run.state then pure (record { run = run; online = true }) else seen run observed

  abbrev pub stop_changes : FileRun → Changes
  stop_changes run = record no_changes {
    stop_requested_at = some (some (first_text run.stop_requested_at now));
  }

  -- `stop`; `sent` is what the interrupt gives, between two observations
  unfoldable pub stop :
      Text
      → (first : Result Fault Observation) → (sent : Result Fault Bool)
      → (second : Result Fault Observation) → Act Stopped
  unfolding reconcile transition
  stop id first sent second = do
    before ← reconcile id first
    if is_terminal before.run.state
        then pure (record { run = before.run; needs_force = false })
        else (do
          confirmed ← outside sent
          if not confirmed
              then (do
                after ← reconcile id second
                if is_terminal after.run.state
                    then pure (record { run = after.run; needs_force = false })
                    else throw unconfirmed)
              else (do
                requested ← transition clock now id live (stop_changes before.run)
                after ← reconcile id second
                pure (record { run = after.run; needs_force = not (is_terminal after.run.state) })))

  abbrev pub forced : Changes
  forced = record no_changes {
    state = some stopped;
    ended_at = some (some now);
    error_code = some (some (codes "forced"));
  }

  -- `kill`, from its end on: a run that a kill does not end is recorded as stopped
  abbrev pub end_killed : Text → Bool → Reconciled → Act FileRun
  end_killed id killed after =
      if killed && not (is_terminal after.run.state)
      then (do ended ← transition clock now id live forced; get id)
      else pure after.run

  abbrev pub observe_killed : Text → Result Fault Observation → Bool → Bool → Act FileRun
  observe_killed id second killed requested = do
    after ← reconcile id second
    end_killed id killed after

  abbrev pub record_kill : Text → Result Fault Observation → Reconciled → Bool → Act FileRun
  record_kill id second before killed = do
    requested ←
        if killed then transition clock now id live (stop_changes before.run) else pure false
    observe_killed id second killed requested

  abbrev pub kill_active :
      Text → Result Fault Bool → Result Fault Observation → Reconciled → Act FileRun
  kill_active id sent second before =
      if is_terminal before.run.state
      then pure before.run
      else (do killed ← outside sent; record_kill id second before killed)

  unfoldable pub kill :
      Text
      → (first : Result Fault Observation) → (sent : Result Fault Bool)
      → (second : Result Fault Observation) → Act FileRun
  unfolding reconcile transition get
  kill id first sent second = do before ← reconcile id first; kill_active id sent second before
