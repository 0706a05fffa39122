-- ===== src/Prelude/Dict.antt =====
-- Python's `dict` and `set` with text keys, where the program never iterates over them: a
-- dictionary is what `d.get(k)` returns, a set is the test `k in s`.
use mathlib.Core.Bool.{Bool, true, false}
use mathlib.Core.Option.{Option, none, some}
use termroom.Prelude.Tests.{if◌then◌else◌}
use termroom.Prelude.Texts.{Text, text_eq}

abbrev pub Dict {ℓ} : Type ℓ → Type ℓ
Dict V = Text → Option V

module _ {ℓ} {V : Type ℓ} where
  -- `{}`
  abbrev pub empty : Dict V
  empty k = none

  -- `d[k] = v`
  abbrev pub put : Dict V → Text → V → Dict V
  put d k v j = if text_eq k j then some v else d j

  -- `d.pop(k, None)`
  abbrev pub pop : Dict V → Text → Dict V
  pop d k j = if text_eq k j then none else d j

abbrev pub TextSet : Type 0
TextSet = Text → Bool

-- `set()`
abbrev pub no_texts : TextSet
no_texts k = false

-- `s.add(k)`
abbrev pub add : TextSet → Text → TextSet
add s k j = if text_eq k j then true else s j

-- `s.discard(k)`
abbrev pub discard : TextSet → Text → TextSet
discard s k j = if text_eq k j then false else s j
