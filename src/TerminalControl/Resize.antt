-- ===== src/TerminalControl/Resize.antt =====
-- Who may size the grid, and the two-phase resize (termroom/terminal_control.py).
use termroom.Prelude.{
  ℕ, Bool, true, false, ◌&&◌, ◌||◌, not, Option, none, some, Text, contains, is_empty, is_some,
  or_else, ◌==◌, if◌then◌else◌,
}
use termroom.Prelude.Dict.{put, pop, add, discard}
use termroom.TerminalControl.State.{
  TerminalControl, TerminalResizePlan, is_text, is_member, is_plan, is_applied, set_first,
  clients_of,
}

unfoldable pub resize_owner : TerminalControl → Text → Option Text
resize_owner s t =
    let clients = clients_of s t in
    if is_empty clients
    then none
    else if is_member (s.input_owners t) clients
    then s.input_owners t
    else if is_member (s.bootstrap_owners t) clients && not (s.bootstrap_applied t)
    then s.bootstrap_owners t
    else none

unfoldable pub can_resize : TerminalControl → Text → Text → Bool
unfolding resize_owner
can_resize s t c = is_text (resize_owner s t) c

unfoldable pub resize_plan : TerminalControl → Text → Text → ℕ → ℕ → Bool × Bool
unfolding resize_owner
resize_plan s t c rows cols =
    if not (is_text (resize_owner s t) c)
    then (false, false)
    else if is_applied (s.applied_resizes t) c rows cols
    then (true, false)
    else (true, true)

unfoldable pub should_resize : TerminalControl → Text → Text → ℕ → ℕ → Bool
unfolding resize_plan
should_resize s t c rows cols = (resize_plan s t c rows cols).1

-- `token` is the value of `uuid.uuid4().hex`
abbrev pub new_plan : TerminalControl → Text → Text → ℕ → ℕ → Text → TerminalResizePlan
new_plan s t c rows cols token = record {
  terminal_id = t;
  client_id = c;
  rows = rows;
  cols = cols;
  revision = or_else (s.input_revisions t) 0;
  token = token;
  bootstrap = is_text (s.bootstrap_owners t) c;
  apply = not (is_applied (s.applied_resizes t) c rows cols);
}

unfoldable pub begin_resize :
    TerminalControl → Text → Text → ℕ → ℕ → Text → TerminalControl × Option TerminalResizePlan
unfolding resize_owner
begin_resize s t c rows cols token =
    if not (is_text (resize_owner s t) c) || is_some (s.resize_plans t) then (s, none) else (
      record s { resize_plans = put s.resize_plans t (new_plan s t c rows cols token) },
      some (new_plan s t c rows cols token),
    )

unfoldable pub plan_current : TerminalControl → TerminalResizePlan → Bool
plan_current s plan =
    let owner =
      if plan.bootstrap
      then s.bootstrap_owners plan.terminal_id
      else s.input_owners plan.terminal_id in
    is_plan (s.resize_plans plan.terminal_id) plan
    && contains (clients_of s plan.terminal_id) plan.client_id
    && is_text owner plan.client_id
    && or_else (s.input_revisions plan.terminal_id) 0 == plan.revision

unfoldable pub resize_applied : TerminalControl → TerminalResizePlan → TerminalControl × Bool
unfolding plan_current
resize_applied s plan =
    let s' = record s {
      applied_plan_tokens = add s.applied_plan_tokens plan.token;
      bootstrap_pending =
          if plan.bootstrap
          then discard s.bootstrap_pending plan.terminal_id
          else s.bootstrap_pending;
      bootstrap_applied =
          if plan.bootstrap then add s.bootstrap_applied plan.terminal_id else s.bootstrap_applied;
    } in
    if not (is_plan (s.resize_plans plan.terminal_id) plan)
    then (s, false)
    else (s', plan_current s' plan)

unfoldable pub commit_resize : TerminalControl → TerminalResizePlan → TerminalControl × Bool
unfolding plan_current
commit_resize s plan =
    let t = plan.terminal_id in
    let done = record s {
      applied_resizes =
          put s.applied_resizes t
            (record { client_id = plan.client_id; rows = plan.rows; cols = plan.cols });
      resize_plans = pop s.resize_plans t;
      applied_plan_tokens = discard s.applied_plan_tokens plan.token;
      bootstrap_pending =
          if plan.bootstrap then discard s.bootstrap_pending t else s.bootstrap_pending;
      bootstrap_owners = if plan.bootstrap then pop s.bootstrap_owners t else s.bootstrap_owners;
      bootstrap_applied =
          if plan.bootstrap then discard s.bootstrap_applied t else s.bootstrap_applied;
    } in
    if not (plan_current s plan)
    then (s, false)
    else if plan.apply && not (s.applied_plan_tokens plan.token)
    then (s, false)
    else if plan.bootstrap && not (s.bootstrap_applied t)
    then (s, false)
    else (done, true)

unfoldable pub abort_resize : TerminalControl → TerminalResizePlan → TerminalControl
abort_resize s plan =
    let t = plan.terminal_id in
    let closed = record s {
      resize_plans = pop s.resize_plans t;
      applied_plan_tokens = discard s.applied_plan_tokens plan.token;
    } in
    if not (is_plan (s.resize_plans t) plan)
    then s
    else if plan.bootstrap && s.bootstrap_applied t
    then record closed {
      bootstrap_owners = pop s.bootstrap_owners t;
      bootstrap_applied = discard s.bootstrap_applied t;
    }
    else if s.bootstrap_pending t && not (is_some (s.bootstrap_owners t))
    then record closed { bootstrap_owners = set_first s.bootstrap_owners t (clients_of s t) }
    else closed
