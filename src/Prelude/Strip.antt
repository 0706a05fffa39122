-- ===== src/Prelude/Strip.antt =====
-- `str.strip` of a text without white space.
use Prim.Native.Nat.{ℕ}
use mathlib.Core.Path.{◌≡◌, refl, ap, ◌∙◌}
use mathlib.Core.Bool.{Bool, false, ◌||◌}
use mathlib.Core.List.{[], ◌∷◌, reverse, reverse_aux}
use native.Mathlib.Omega.{arith}
use termroom.Prelude.Texts.{Text, is_space, lstrip, strip}
use termroom.Prelude.Split.{any}

lstrip_fixed : (s : Text) → any is_space s ≡ false → lstrip s ≡ s
unfolding lstrip any
lstrip_fixed [] h = refl
lstrip_fixed (c ∷ s) h = ground arith

any-reverse_aux : (f : ℕ → Bool) (s t : Text) → any f (reverse_aux s t) ≡ (any f s || any f t)
unfolding any
any-reverse_aux f [] t = refl
any-reverse_aux f (c ∷ s) t = ground (arith, any-reverse_aux f s (c ∷ t))

any-reverse : (f : ℕ → Bool) (s : Text) → any f (reverse s) ≡ any f s
unfolding any
any-reverse f s = ground (arith, any-reverse_aux f s [])

reverse-reverse_aux : (s t : Text) → reverse (reverse_aux s t) ≡ reverse_aux t s
reverse-reverse_aux [] t = refl
reverse-reverse_aux (c ∷ s) t = reverse-reverse_aux s (c ∷ t)

pub strip_fixed : (s : Text) → any is_space s ≡ false → strip s ≡ s
unfolding strip is_space
strip_fixed s h =
    ap (λ t. reverse (lstrip (reverse t))) (lstrip_fixed s h)
    ∙ ap reverse (lstrip_fixed (reverse s) (any-reverse is_space s ∙ h))
    ∙ reverse-reverse_aux s []
