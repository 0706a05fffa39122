-- ===== src/NodeCore/Json.antt =====
-- JSON values as `json.loads` gives them (termroom/node_core.py reads messages of them): the members of
-- an object are a `dict`, so no key is there twice.
use termroom.Prelude.{
  ℕ, Bool, true, false, not, Option, none, some, Text, text_eq, is_empty, ◌==◌, if◌then◌else◌,
}

mutual
  pub data Json : Type 0 where
    null : Json
    boolean : Bool → Json
    integer : (negative : Bool) → ℕ → Json
    real : (zero : Bool) → Text → Json
    text : Text → Json
    array : Items → Json
    object : Members → Json

  pub data Items : Type 0 where
    no_items : Items
    item : Json → Items → Items

  pub data Members : Type 0 where
    no_members : Members
    member : Text → Json → Members → Members

-- `message.get(key)`
unfoldable pub get : Members → Text → Option Json
get no_members key = none
get (member name value rest) key =
    let later = get rest key in if text_eq name key then some value else later

-- truth of a value
abbrev pub truth : Json → Bool
truth null = false
truth (boolean b) = b
truth (integer negative n) = not (n == 0)
truth (real zero t) = not zero
truth (text t) = not (is_empty t)
truth (array no_items) = false
truth (array (item _ _)) = true
truth (object no_members) = false
truth (object (member _ _ _)) = true

-- `str(value)`; `show` says what it gives for what is not a `str`
abbrev pub str_of : (Json → Text) → Json → Text
str_of show (text t) = t
str_of show other = show other

-- `str(message.get(key) or default)`
abbrev pub text_or : (Json → Text) → Option Json → Text → Text
text_or show none default = default
text_or show (some value) default = if truth value then str_of show value else default

-- `value == literal` for a `str` literal
abbrev pub is_literal : Option Json → Text → Bool
is_literal (some (text t)) literal = text_eq t literal
is_literal _ literal = false
