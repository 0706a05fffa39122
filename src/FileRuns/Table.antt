-- ===== src/FileRuns/Table.antt =====
-- The rows of the tables `file_runs` and `events` (termroom/db.py), and the label of an event.
use termroom.Prelude.{
  ℕ, Bool, true, false, ◌&&◌, not, Option, none, some, List, [], ◌∷◌, map, Text, contains, text_eq,
  is_space, is_empty, if◌then◌else◌,
}
use termroom.Prelude.Split.{join}
use termroom.Prelude.Lists.{take}
use termroom.Prelude.Integers.{ℤ}

-- `FILE_RUN_STATES`
pub data RunState : Type 0 where
  preparing running finished stopped failed lost : RunState

-- `FILE_RUN_TERMINAL_STATES`
abbrev pub is_terminal : RunState → Bool
is_terminal preparing = false
is_terminal running = false
is_terminal _ = true

abbrev pub same_state : RunState → RunState → Bool
same_state preparing preparing = true
same_state running running = true
same_state finished finished = true
same_state stopped stopped = true
same_state failed failed = true
same_state lost lost = true
same_state _ _ = false

-- a row of `file_runs`; `argv` is what `argv_json` lists
pub record FileRun : Type 0 where
  pub id : Text
  pub workspace_id : Text
  pub idempotency_key : Text
  pub relative_path : Text
  pub source_digest : Text
  pub runner_id : Text
  pub runner_version : ℕ
  pub argv : List Text
  pub terminal_id : Option Text
  pub state : RunState
  pub lifecycle_revision : ℕ
  pub created_at : Text
  pub started_at : Option Text
  pub stop_requested_at : Option Text
  pub ended_at : Option Text
  pub exit_code : Option ℤ
  pub error_code : Option Text
  pub error_detail : Option Text

pub data EventKind : Type 0 where
  run_completed run_failed run_stopped run_attention : EventKind

-- a row of `events` whose `subject_type` is `file_run`
pub record Event : Type 0 where
  pub kind : EventKind
  pub subject_id : Text
  pub subject_revision : ℕ
  pub primary_label : Text
  pub secondary_label : Text
  pub exit_code : Option ℤ
  pub duration_seconds : Option ℕ
  pub occurred_at : Text
  pub created_at : Text
  pub notify : Bool

-- the two tables, the newest row first
pub record Store : Type 0 where
  pub runs : List FileRun
  pub events : List Event

-- `terminal_id TEXT REFERENCES terminals(id) ON DELETE SET NULL`, when these terminals are deleted
abbrev pub kept_terminal : List Text → Option Text → Option Text
kept_terminal gone none = none
kept_terminal gone (some terminal_id) = if contains gone terminal_id then none else some terminal_id

abbrev pub without_terminal : List Text → FileRun → FileRun
without_terminal gone r = record r { terminal_id = kept_terminal gone r.terminal_id }

unfoldable pub forget_terminals : List Text → Store → Store
unfolding contains
forget_terminals gone s = record s { runs = map (without_terminal gone) s.runs }

-- `SELECT ... WHERE id = ?`
unfoldable pub find : List FileRun → Text → Option FileRun
find [] id = none
find (r ∷ rs) id = let rest = find rs id in if text_eq r.id id then some r else rest

-- `state IN ('preparing', 'running')`
abbrev pub is_active : FileRun → Bool
is_active r = not (is_terminal r.state)

-- the active run of a workspace
unfoldable pub active_in : List FileRun → Text → Option FileRun
active_in [] w = none
active_in (r ∷ rs) w =
    let rest = active_in rs w in if text_eq r.workspace_id w && is_active r then some r else rest

-- the run of a workspace under an idempotency key
unfoldable pub keyed : List FileRun → Text → Text → Option FileRun
keyed [] w key = none
keyed (r ∷ rs) w key =
    let rest = keyed rs w key in
    if text_eq r.workspace_id w && text_eq r.idempotency_key key then some r else rest

-- `UPDATE ... WHERE id = ?`
unfoldable pub amend : List FileRun → FileRun → List FileRun
amend [] row = []
amend (r ∷ rs) row = let rest = amend rs row in if text_eq r.id row.id then row ∷ rest else r ∷ rest

-- `str.split()`: the runs of characters that are not white space
abbrev pub glue : ℕ → Bool → List Text → List Text
glue c true words = (c ∷ []) ∷ words
glue c false [] = (c ∷ []) ∷ []
glue c false (w ∷ words) = (c ∷ w) ∷ words

abbrev pub ends_here : Text → Bool
ends_here [] = true
ends_here (c ∷ s) = is_space c

unfoldable pub words : Text → List Text
words [] = []
words (c ∷ s) = let rest = words s in if is_space c then rest else glue c (ends_here s) rest

-- `_event_label`
unfoldable pub event_label : Text → Text → Text
unfolding words take join
event_label value fallback =
    let label = take 160 (join b' ' (words value)) in if is_empty label then fallback else label
