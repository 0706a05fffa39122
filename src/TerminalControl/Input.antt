-- ===== src/TerminalControl/Input.antt =====
-- Joining a terminal, taking control of it and typing into it (termroom/terminal_control.py).
use termroom.Prelude.{
  ℕ, Bool, ◌&&◌, not, [], ◌∷◌, ◌++◌, Text, contains, strip, is_empty, is_some, or_else,
  if◌then◌else◌,
}
use termroom.Prelude.Dict.{empty, put, pop, add, discard}
use termroom.TerminalControl.State.{TerminalControl, is_text, bump, clients_of}

-- `client_id` is the value of `uuid.uuid4().hex`
unfoldable pub register : TerminalControl → Text → Text → Text → TerminalControl
register s t device_id client_id =
    let safe_device_id = strip device_id in
    let clients = clients_of s t in
    let first = is_empty clients in
    let devices = or_else (s.client_devices t) empty in
    let wants_bootstrap =
      s.bootstrap_pending t
      && not (is_some (s.input_owners t))
      && not (is_some (s.bootstrap_owners t))
      && not (is_some (s.resize_plans t)) in
    record s {
      controllers = if first then put s.controllers t client_id else s.controllers;
      control_revisions = if first then bump s.control_revisions t else s.control_revisions;
      clients = put s.clients t (clients ++ client_id ∷ []);
      client_devices =
          if is_empty safe_device_id
          then s.client_devices
          else put s.client_devices t (put devices client_id safe_device_id);
      bootstrap_owners =
          if wants_bootstrap then put s.bootstrap_owners t client_id else s.bootstrap_owners;
    }

-- `lock` is the identity of a new `asyncio.Lock()`
unfoldable pub input_lock : TerminalControl → Text → ℕ → TerminalControl
input_lock s t lock =
    if is_some (s.input_locks t) then s else record s { input_locks = put s.input_locks t lock }

unfoldable pub can_input : TerminalControl → Text → Text → Bool
can_input s t c = is_text (s.controllers t) c

unfoldable pub claim_control : TerminalControl → Text → Text → TerminalControl
claim_control s t c =
    if not (contains (clients_of s t) c)
    then s
    else if is_text (s.controllers t) c
    then s
    else record s {
      controllers = put s.controllers t c;
      control_revisions = bump s.control_revisions t;
      input_owners = pop s.input_owners t;
    }

unfoldable pub mark_grid_fresh : TerminalControl → Text → Text → TerminalControl
mark_grid_fresh s t c =
    let takes_grid =
      not (is_empty c)
      && contains (clients_of s t) c
      && not (is_some (s.input_owners t))
      && not (is_some (s.bootstrap_owners t)) in
    record s {
      bootstrap_pending = add s.bootstrap_pending t;
      bootstrap_owners = if takes_grid then put s.bootstrap_owners t c else s.bootstrap_owners;
    }

unfoldable pub mark_input : TerminalControl → Text → Text → Text → TerminalControl
mark_input s t c device_id = if not (contains (clients_of s t) c) then s else record s {
  input_owners = put s.input_owners t c;
  bootstrap_pending = discard s.bootstrap_pending t;
  bootstrap_owners = pop s.bootstrap_owners t;
  input_revisions = bump s.input_revisions t;
  last_input_devices =
      if is_empty device_id then s.last_input_devices else put s.last_input_devices t device_id;
}

unfoldable pub mark_grid_existing : TerminalControl → Text → TerminalControl
mark_grid_existing s t = record s {
  bootstrap_pending = discard s.bootstrap_pending t;
  bootstrap_owners = pop s.bootstrap_owners t;
}
