-- ===== src/TerminalControl/Presence.antt =====
-- What the other browsers are told (termroom/terminal_control.py).
pub mod Bounds
use termroom.Prelude.{
  ℕ, ◌+◌, ◌||◌, List, [], ◌∷◌, Text, contains, is_empty, length, or_else, if◌then◌else◌,
}
use termroom.Prelude.Dict.{Dict, empty}
use termroom.TerminalControl.State.{TerminalControl, clients_of}

unfoldable pub client_count : TerminalControl → Text → ℕ
client_count s t = length (clients_of s t)

-- the `dict` that `control_state` sends, without its two constant-valued keys
pub record ControlState : Type 0 where
  pub terminal_id : Text
  pub generation : Text
  pub controller_client_id : Text
  pub control_revision : ℕ

unfoldable pub control_state : TerminalControl → Text → Text → ControlState
control_state s t c = record {
  terminal_id = t;
  generation = c;
  controller_client_id = or_else (s.controllers t) [];
  control_revision = or_else (s.control_revisions t) 0;
}

pub record Presence : Type 0 where
  pub count : ℕ
  pub input_revision : ℕ
  pub last_input_device_id : Text
  pub controller_client_id : Text
  pub control_revision : ℕ

-- `client_devices.get(client_id, "")`
abbrev pub device_of : Dict Text → Text → Text
device_of devices c = or_else (devices c) []

-- the set of the devices of the clients, as a list without repetition
unfoldable pub known_devices : Dict Text → List Text → List Text
known_devices devices [] = []
known_devices devices (c ∷ clients) =
    let rest = known_devices devices clients in
    if is_empty (device_of devices c) || contains rest (device_of devices c)
    then rest
    else device_of devices c ∷ rest

-- how many clients have no device
unfoldable pub anonymous_clients : Dict Text → List Text → ℕ
anonymous_clients devices [] = 0
anonymous_clients devices (c ∷ clients) =
    (if is_empty (device_of devices c) then 1 else 0) + anonymous_clients devices clients

unfoldable pub presence : TerminalControl → Text → Presence
unfolding known_devices anonymous_clients
presence s t =
    let clients = clients_of s t in
    let devices = or_else (s.client_devices t) empty in
    record {
      count = length (known_devices devices clients) + anonymous_clients devices clients;
      input_revision = or_else (s.input_revisions t) 0;
      last_input_device_id = or_else (s.last_input_devices t) [];
      controller_client_id = or_else (s.controllers t) [];
      control_revision = or_else (s.control_revisions t) 0;
    }
