-- ===== src/TerminalControl/Presence/Bounds.antt =====
-- The number of people that `presence` shows.
use termroom.Prelude.{
  ◌+◌, ◌≤◌, ◌<◌, Bool, true, false, ◌&&◌, List, [], ◌∷◌, Text, text_eq, text_eq_refl, text_eq_iff,
  contains, is_empty, length, or_else, if◌then◌else◌, ◌≡◌, ◌↔◌, refl, arith,
}
use termroom.Prelude.Dict.{Dict, empty}
use termroom.TerminalControl.State.{TerminalControl, clients_of}
use termroom.TerminalControl.Presence.{
  device_of, known_devices, anonymous_clients, presence, client_count,
}

known-le :
    (devices : Dict Text) (clients : List Text)
    → length (known_devices devices clients) + anonymous_clients devices clients ≤ length clients
unfolding known_devices anonymous_clients
known-le devices [] = omega arith
known-le devices (c ∷ clients) = ground (arith, known-le devices clients)

length-contains : (xs : List Text) (x : Text) → contains xs x ≡ true → 0 < length xs
unfolding contains
length-contains [] x h = cc
length-contains (y ∷ xs) x h = omega arith

some_known :
    (devices : Dict Text) (clients : List Text)
    → 0 < length clients
    → 0 < length (known_devices devices clients) + anonymous_clients devices clients
unfolding known_devices anonymous_clients
some_known devices [] h = h
some_known devices (c ∷ clients) h =
    ground (arith, length-contains (known_devices devices clients) (device_of devices c))

-- The number of people shown is at most the number of connections, and is 0 exactly if there is no
-- connection.
pub count-presence :
    (s : TerminalControl) (t : Text)
    → ((presence s t).count ≤ client_count s t)
      × ((0 < (presence s t).count) ↔ (0 < client_count s t))
unfolding presence client_count
count-presence s t =
    let devices = or_else (s.client_devices t) empty in
    let at_most = known-le devices (clients_of s t) in
    (at_most, (λ h. omega arith, some_known devices (clients_of s t)))

-- every client of the list has told that it runs on device `d`
abbrev pub all_on : Dict Text → Text → List Text → Bool
all_on devices d [] = true
all_on devices d (c ∷ clients) = text_eq (device_of devices c) d && all_on devices d clients

module _ (devices : Dict Text) (d : Text) (named : is_empty d ≡ false) where
  one-known :
      (clients : List Text)
      → all_on devices d clients ≡ true
      → known_devices devices clients ≡ (if is_empty clients then [] else d ∷ [])
  unfolding known_devices contains
  one-known [] h = refl
  one-known (c ∷ clients) h =
      ground (arith, text_eq_refl d, one-known clients, text_eq_iff (device_of devices c) d)

  none-anonymous :
      (clients : List Text)
      → all_on devices d clients ≡ true
      → anonymous_clients devices clients ≡ 0
  unfolding anonymous_clients
  none-anonymous [] h = refl
  none-anonymous (c ∷ clients) h =
      ground (arith, none-anonymous clients, text_eq_iff (device_of devices c) d)

-- Any number of connections from one named device count as one person.
pub presence_one_device :
    (s : TerminalControl) (t d : Text)
    → is_empty d ≡ false
    → 0 < client_count s t
    → all_on (or_else (s.client_devices t) empty) d (clients_of s t) ≡ true
    → (presence s t).count ≡ 1
unfolding presence client_count
presence_one_device s t d named some_client h =
    let devices = or_else (s.client_devices t) empty in
    ground (
      arith,
      one-known devices d named (clients_of s t),
      none-anonymous devices d named (clients_of s t),
    )
