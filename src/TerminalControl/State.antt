-- ===== src/TerminalControl/State.antt =====
-- The state of termroom/terminal_control.py and the tests on it that several methods share.
use termroom.Prelude.{
  ℕ, ◌+◌, Bool, true, false, ◌&&◌, not, Option, none, some, List, [], ◌∷◌, Text, text_eq, contains,
  or_else, ◌==◌, if◌then◌else◌,
}
use termroom.Prelude.Dict.{Dict, empty, put, TextSet, no_texts}

pub record TerminalResizePlan : Type 0 where
  pub terminal_id : Text
  pub client_id : Text
  pub rows : ℕ
  pub cols : ℕ
  pub revision : ℕ
  pub token : Text
  pub bootstrap : Bool
  pub apply : Bool

-- the tuple `(client_id, rows, cols)` of `_applied_resizes`
pub record AppliedResize : Type 0 where
  pub client_id : Text
  pub rows : ℕ
  pub cols : ℕ

pub record TerminalControl : Type 0 where
  pub controllers : Dict Text
  pub control_revisions : Dict ℕ
  pub input_locks : Dict ℕ  -- the identity of each `asyncio.Lock`
  pub clients : Dict (List Text)
  pub client_devices : Dict (Dict Text)
  pub input_owners : Dict Text
  pub bootstrap_pending : TextSet
  pub bootstrap_owners : Dict Text
  pub input_revisions : Dict ℕ
  pub last_input_devices : Dict Text
  pub applied_resizes : Dict AppliedResize
  pub resize_plans : Dict TerminalResizePlan
  pub bootstrap_applied : TextSet
  pub applied_plan_tokens : TextSet

-- `__init__`
unfoldable pub init : TerminalControl
init = record {
  controllers = empty;
  control_revisions = empty;
  input_locks = empty;
  clients = empty;
  client_devices = empty;
  input_owners = empty;
  bootstrap_pending = no_texts;
  bootstrap_owners = empty;
  input_revisions = empty;
  last_input_devices = empty;
  applied_resizes = empty;
  resize_plans = empty;
  bootstrap_applied = no_texts;
  applied_plan_tokens = no_texts;
}

-- `d.get(k) == x`
abbrev pub is_text : Option Text → Text → Bool
is_text none x = false
is_text (some y) x = text_eq y x

-- `d.get(k) in clients`
abbrev pub is_member : Option Text → List Text → Bool
is_member none clients = false
is_member (some y) clients = contains clients y

-- `d[t] = d.get(t, 0) + 1`
abbrev pub bump : Dict ℕ → Text → Dict ℕ
bump d t = put d t (or_else (d t) 0 + 1)

abbrev bool_eq : Bool → Bool → Bool
bool_eq true b = b
bool_eq false b = not b

-- the `==` that `@dataclass` derives
unfoldable pub plan_eq : TerminalResizePlan → TerminalResizePlan → Bool
plan_eq p q =
    text_eq p.terminal_id q.terminal_id
    && text_eq p.client_id q.client_id
    && p.rows == q.rows
    && p.cols == q.cols
    && p.revision == q.revision
    && text_eq p.token q.token
    && bool_eq p.bootstrap q.bootstrap
    && bool_eq p.apply q.apply

abbrev pub is_plan : Option TerminalResizePlan → TerminalResizePlan → Bool
is_plan none plan = false
is_plan (some p) plan = plan_eq p plan

abbrev pub is_applied : Option AppliedResize → Text → ℕ → ℕ → Bool
is_applied none c rows cols = false
is_applied (some a) c rows cols = text_eq a.client_id c && a.rows == rows && a.cols == cols

-- `clients.remove(x)`, which takes out the first `x`
unfoldable pub remove : List Text → Text → List Text
remove [] x = []
remove (y ∷ ys) x = if text_eq y x then ys else y ∷ remove ys x

-- `clients[0]` of a list that is not empty
abbrev pub set_first : Dict Text → Text → List Text → Dict Text
set_first d t [] = d
set_first d t (c ∷ _) = put d t c

-- `self._clients.get(terminal_id, [])`
abbrev pub clients_of : TerminalControl → Text → List Text
clients_of s t = or_else (s.clients t) []
