-- ===== src/FileRuns/Transition.antt =====
-- The transitions of file runs with their events (`StateStore` of termroom/db.py).
use termroom.Prelude.{
  ℕ, suc, Bool, true, false, ◌&&◌, ◌||◌, not, Option, none, some, List, [], ◌∷◌, Text, codes,
  text_eq, is_empty, is_some, or_else, leb, ◌==◌, if◌then◌else◌,
}
use termroom.Prelude.Result.{Result, ok, err}
use termroom.Prelude.Integers.{ℤ, pos, negsuc}
use termroom.FileRuns.Table.{
  RunState, finished, stopped, failed, is_terminal, same_state, FileRun, EventKind, run_completed,
  run_failed, run_stopped, run_attention, Event, Store, find, is_active, amend, event_label,
}
use termroom.FileRuns.Store.{StoreError, states_invalid, integrity, Clock}

-- the columns that `transition_file_run` sets; `none` is the default `...`
pub record Changes : Type 0 where
  pub state : Option RunState
  pub started_at : Option (Option Text)
  pub stop_requested_at : Option (Option Text)
  pub ended_at : Option (Option Text)
  pub exit_code : Option (Option ℤ)
  pub error_code : Option (Option Text)
  pub error_detail : Option (Option Text)

abbrev pub no_changes : Changes
no_changes = record {
  state = none;
  started_at = none;
  stop_requested_at = none;
  ended_at = none;
  exit_code = none;
  error_code = none;
  error_detail = none;
}

abbrev pub assigns : Changes → Bool
assigns c =
    is_some c.state
    || is_some c.started_at
    || is_some c.stop_requested_at
    || is_some c.ended_at
    || is_some c.exit_code
    || is_some c.error_code
    || is_some c.error_detail

abbrev pub changed : FileRun → Changes → FileRun
changed r c = record r {
  state = or_else c.state r.state;
  started_at = or_else c.started_at r.started_at;
  stop_requested_at = or_else c.stop_requested_at r.stop_requested_at;
  ended_at = or_else c.ended_at r.ended_at;
  exit_code = or_else c.exit_code r.exit_code;
  error_code = or_else c.error_code r.error_code;
  error_detail = or_else c.error_detail r.error_detail;
  lifecycle_revision = suc r.lifecycle_revision;
}

abbrev pub given : Option Text → Text
given none = []
given (some t) = t

-- `max(0, int(seconds))`
abbrev pub at_least_zero : Option ℤ → Option ℕ
at_least_zero none = none
at_least_zero (some (pos n)) = some n
at_least_zero (some (negsuc n)) = some 0

-- `_run_duration_seconds`
abbrev pub run_duration_seconds : Clock → FileRun → Option ℕ
run_duration_seconds clock r =
    if is_empty (given r.started_at) || is_empty (given r.ended_at)
    then none
    else at_least_zero (clock.seconds_between (given r.started_at) (given r.ended_at))

abbrev pub is_zero : Option ℤ → Bool
is_zero (some (pos n)) = n == 0
is_zero _ = false

abbrev pub is_long : Option ℕ → Bool
is_long none = false
is_long (some seconds) = leb 30 seconds

-- the kind of the event, and whether it notifies
abbrev pub outcome : RunState → Option ℤ → Option ℕ → EventKind × Bool
outcome finished code duration =
    if is_zero code then (run_completed, is_long duration) else (run_failed, true)
outcome failed code duration = (run_failed, true)
outcome stopped code duration = (run_stopped, true)
outcome _ code duration = (run_attention, true)

-- the first text that is not empty
abbrev pub first_text : Option Text → Text → Text
first_text value default = if is_empty (given value) then default else given value

abbrev pub event_of : Clock → Text → FileRun → Event
event_of clock now r =
    let duration = run_duration_seconds clock r in
    let o = outcome r.state r.exit_code duration in
    record {
      kind = o.0;
      subject_id = r.id;
      subject_revision = r.lifecycle_revision;
      primary_label = event_label r.relative_path (codes "File");
      secondary_label = event_label (clock.display_name r.workspace_id) (codes "Workspace");
      exit_code = r.exit_code;
      duration_seconds = duration;
      occurred_at = first_text r.ended_at (first_text (some r.created_at) now);
      created_at = now;
      notify = o.1;
    }

-- the unique key of an event is taken
unfoldable pub has_event : List Event → Text → ℕ → Bool
has_event [] id revision = false
has_event (e ∷ es) id revision =
    (text_eq e.subject_id id && e.subject_revision == revision) || has_event es id revision

-- `_insert_file_run_event`, with `ON CONFLICT DO NOTHING`
unfoldable pub insert_file_run_event : Clock → Text → FileRun → List Event → List Event
unfolding has_event event_label
insert_file_run_event clock now r events =
    if is_terminal r.state && not (has_event events r.id r.lifecycle_revision)
    then event_of clock now r ∷ events
    else events

unfoldable pub one_of : List RunState → RunState → Bool
one_of [] state = false
one_of (s ∷ ss) state = same_state s state || one_of ss state

-- another row that is active in the workspace
unfoldable pub other_active : List FileRun → FileRun → Bool
other_active [] row = false
other_active (r ∷ rs) row =
    (not (text_eq r.id row.id) && text_eq r.workspace_id row.workspace_id && is_active r)
    || other_active rs row

unfoldable pub transition_file_run :
    Clock → Text → Text → List RunState → Changes → Store → Result StoreError (Bool × Store)
unfolding find one_of other_active amend insert_file_run_event
transition_file_run clock now id expected c s =
    if is_empty expected
    then err states_invalid
    else if not (assigns c)
    then ok (false, s)
    else elim (find s.runs id) [
      | none ↦ ok (false, s)
      | some r ↦
          if not (one_of expected r.state)
          then ok (false, s)
          else if is_active (changed r c) && other_active s.runs r
          then err integrity
          else ok (
            true,
            record {
              runs = amend s.runs (changed r c);
              events =
                  if is_active r
                  then insert_file_run_event clock now (changed r c) s.events
                  else s.events;
            },
          )
    ]

-- `set_file_run_terminal`
unfoldable pub set_file_run_terminal : Text → Text → Store → Bool × Store
unfolding find amend
set_file_run_terminal id terminal_id s = elim (find s.runs id) [
  | none ↦ (false, s)
  | some r ↦
      if is_active r
      then (true, record s { runs = amend s.runs (record r { terminal_id = some terminal_id }) })
      else (false, s)
]
