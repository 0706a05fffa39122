-- ===== src/TerminalControl/Leave.antt =====
-- `unregister` (termroom/terminal_control.py).
use termroom.Prelude.{
  ℕ, Bool, false, ◌&&◌, not, none, some, Text, text_eq, contains, is_empty, is_some, if◌then◌else◌,
}
use termroom.Prelude.Dict.{put, pop}
use termroom.TerminalControl.State.{TerminalControl, is_text, bump, remove, set_first, clients_of}

-- the part of `unregister` that runs when its terminal has no client left
unfoldable pub forget_grid : TerminalControl → Text → TerminalControl
forget_grid s t = record s {
  client_devices = pop s.client_devices t;
  input_owners = pop s.input_owners t;
  bootstrap_owners = pop s.bootstrap_owners t;
  applied_resizes = pop s.applied_resizes t;
}

-- `clients.remove(client_id)` up to the test `if not clients`
unfoldable pub drop_client : TerminalControl → Text → Text → TerminalControl
drop_client s t c =
    let held = is_text (s.controllers t) c in
    record s {
      clients = put s.clients t (remove (clients_of s t) c);
      controllers = if held then pop s.controllers t else s.controllers;
      control_revisions = if held then bump s.control_revisions t else s.control_revisions;
      client_devices = elim (s.client_devices t) [
        | none ↦ s.client_devices
        | some devices ↦ put s.client_devices t (pop devices c)
      ];
    }

-- the last client has gone; `locked` tells whether an `asyncio.Lock` is held
unfoldable pub drop_terminal : (ℕ → Bool) → TerminalControl → Text → TerminalControl
unfolding forget_grid
drop_terminal locked s t =
    let unlocked : Bool = elim (s.input_locks t) [ none ↦ false | some lock ↦ not (locked lock) ] in
    forget_grid
      (record s {
        clients = pop s.clients t;
        input_locks = if unlocked then pop s.input_locks t else s.input_locks;
      })
      t

-- other clients remain
unfoldable pub drop_ownership : TerminalControl → Text → Text → TerminalControl
drop_ownership s t c =
    let owned_grid = is_text (s.bootstrap_owners t) c in
    let passes_on = s.bootstrap_pending t && not (is_some (s.resize_plans t)) in
    record s {
      input_owners = if is_text (s.input_owners t) c then pop s.input_owners t else s.input_owners;
      bootstrap_owners =
          if not owned_grid
          then s.bootstrap_owners
          else if passes_on
          then set_first (pop s.bootstrap_owners t) t (clients_of s t)
          else pop s.bootstrap_owners t;
      applied_resizes = elim (s.applied_resizes t) [
        | none ↦ s.applied_resizes
        | some a ↦ if text_eq a.client_id c then pop s.applied_resizes t else s.applied_resizes
      ];
    }

unfoldable pub unregister : (ℕ → Bool) → TerminalControl → Text → Text → TerminalControl
unfolding forget_grid drop_client drop_terminal drop_ownership
unregister locked s t c =
    let s' = drop_client s t c in
    if is_empty (clients_of s t)
    then forget_grid s t
    else if not (contains (clients_of s t) c)
    then s
    else if is_empty (clients_of s' t)
    then drop_terminal locked s' t
    else drop_ownership s' t c
