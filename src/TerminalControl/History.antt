-- ===== src/TerminalControl/History.antt =====
-- Histories of calls of termroom/terminal_control.py, and the part of the state that belongs to one
-- terminal.
pub mod Frame
pub mod Valid
use termroom.Prelude.{ℕ, Bool, Option, List, [], ◌∷◌, Text}
use termroom.Prelude.Dict.{Dict}
use termroom.TerminalControl.State.{TerminalControl, TerminalResizePlan, AppliedResize}
use termroom.TerminalControl.Input
use termroom.TerminalControl.Resize
use termroom.TerminalControl.Leave

-- all that the state holds under one terminal's identifier
pub record Terminal : Type 0 where
  pub controller : Option Text
  pub control_revision : Option ℕ
  pub input_lock : Option ℕ
  pub clients : Option (List Text)
  pub client_devices : Option (Dict Text)
  pub input_owner : Option Text
  pub bootstrap_pending : Bool
  pub bootstrap_owner : Option Text
  pub input_revision : Option ℕ
  pub last_input_device : Option Text
  pub applied_resize : Option AppliedResize
  pub resize_plan : Option TerminalResizePlan
  pub bootstrap_applied : Bool

abbrev pub view : TerminalControl → Text → Terminal
view s t = record {
  controller = s.controllers t;
  control_revision = s.control_revisions t;
  input_lock = s.input_locks t;
  clients = s.clients t;
  client_devices = s.client_devices t;
  input_owner = s.input_owners t;
  bootstrap_pending = s.bootstrap_pending t;
  bootstrap_owner = s.bootstrap_owners t;
  input_revision = s.input_revisions t;
  last_input_device = s.last_input_devices t;
  applied_resize = s.applied_resizes t;
  resize_plan = s.resize_plans t;
  bootstrap_applied = s.bootstrap_applied t;
}

-- one call of a method that changes the state; `register` and `begin_resize` carry the identifier
-- that `uuid.uuid4` draws, `unregister` whether each lock is held
pub data Call : Type 0 where
  register : Text → Text → Text → Call
  input_lock : Text → ℕ → Call
  claim_control : Text → Text → Call
  mark_grid_fresh : Text → Text → Call
  mark_input : Text → Text → Text → Call
  mark_grid_existing : Text → Call
  begin_resize : Text → Text → ℕ → ℕ → Text → Call
  resize_applied : TerminalResizePlan → Call
  commit_resize : TerminalResizePlan → Call
  abort_resize : TerminalResizePlan → Call
  unregister : (ℕ → Bool) → Text → Text → Call

abbrev pub terminal_of : Call → Text
terminal_of (Call.register t d c) = t
terminal_of (Call.input_lock t l) = t
terminal_of (Call.claim_control t c) = t
terminal_of (Call.mark_grid_fresh t c) = t
terminal_of (Call.mark_input t c d) = t
terminal_of (Call.mark_grid_existing t) = t
terminal_of (Call.begin_resize t c rows cols token) = t
terminal_of (Call.resize_applied plan) = plan.terminal_id
terminal_of (Call.commit_resize plan) = plan.terminal_id
terminal_of (Call.abort_resize plan) = plan.terminal_id
terminal_of (Call.unregister locked t c) = t

unfoldable pub apply : TerminalControl → Call → TerminalControl
apply s (Call.register t d c) = Input.register s t d c
apply s (Call.input_lock t l) = Input.input_lock s t l
apply s (Call.claim_control t c) = Input.claim_control s t c
apply s (Call.mark_grid_fresh t c) = Input.mark_grid_fresh s t c
apply s (Call.mark_input t c d) = Input.mark_input s t c d
apply s (Call.mark_grid_existing t) = Input.mark_grid_existing s t
apply s (Call.begin_resize t c rows cols token) = (Resize.begin_resize s t c rows cols token).0
apply s (Call.resize_applied plan) = (Resize.resize_applied s plan).0
apply s (Call.commit_resize plan) = (Resize.commit_resize s plan).0
apply s (Call.abort_resize plan) = Resize.abort_resize s plan
apply s (Call.unregister locked t c) = Leave.unregister locked s t c

-- a history, oldest call first
unfoldable pub run : TerminalControl → List Call → TerminalControl
run s [] = s
run s (call ∷ calls) = run (apply s call) calls
