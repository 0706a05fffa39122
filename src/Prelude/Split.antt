-- ===== src/Prelude/Split.antt =====
-- `str.split`, `str.join`, `startswith`, and tests of every character or part.
use Prim.Native.Nat.{ℕ}
use mathlib.Core.Path.{◌≡◌, refl, ap₂, ◌∙◌}
use mathlib.Core.Logic.{◌≢◌}
use mathlib.Core.Bool.{Bool, true, false, not, ◌&&◌, ◌||◌}
use mathlib.Core.List.{List, [], ◌∷◌, ◌++◌}
use native.Mathlib.Omega.{arith}
use termroom.Prelude.Tests.{◌==◌, if◌then◌else◌}
use termroom.Prelude.Texts.{Text, text_eq_iff, contains}

-- `any(f(character) for character in s)`
unfoldable pub any : (ℕ → Bool) → Text → Bool
any f [] = false
any f (c ∷ s) = f c || any f s

-- `character in s`
unfoldable pub has : ℕ → Text → Bool
has x [] = false
has x (c ∷ s) = c == x || has x s

-- every part passes the test
unfoldable pub all_parts : (Text → Bool) → List Text → Bool
all_parts f [] = true
all_parts f (p ∷ ps) = f p && all_parts f ps

abbrev pub push : ℕ → List Text → List Text
push c [] = (c ∷ []) ∷ []
push c (p ∷ ps) = (c ∷ p) ∷ ps

-- `s.split(sep)`
unfoldable pub split : ℕ → Text → List Text
split sep [] = [] ∷ []
split sep (c ∷ s) = let rest = split sep s in if c == sep then [] ∷ rest else push c rest

-- `sep.join(parts)`
unfoldable pub join : ℕ → List Text → Text
join sep [] = []
join sep (p ∷ []) = p
join sep (p ∷ q ∷ ps) = p ++ sep ∷ join sep (q ∷ ps)

-- `s.startswith(prefix)`
unfoldable pub starts_with : Text → Text → Bool
starts_with s [] = true
starts_with [] (d ∷ p) = false
starts_with (c ∷ s) (d ∷ p) = c == d && starts_with s p

pub split-ne-nil : (sep : ℕ) (s : Text) → split sep s ≢ []
unfolding split
split-ne-nil sep [] h = cc
split-ne-nil sep (c ∷ s) h = ground arith

pub split-lacks : (sep : ℕ) (s : Text) → all_parts (λ p. not (has sep p)) (split sep s) ≡ true
unfolding split all_parts has
split-lacks sep [] = refl
split-lacks sep (c ∷ s) = ground (arith, split-lacks sep s)

pub join-push : (sep c : ℕ) (ps : List Text) → join sep (push c ps) ≡ c ∷ join sep ps
unfolding join
join-push sep c [] = refl
join-push sep c (p ∷ []) = refl
join-push sep c (p ∷ q ∷ ps) = refl

pub join-nil_cons : (sep : ℕ) (ps : List Text) → ps ≢ [] → join sep ([] ∷ ps) ≡ sep ∷ join sep ps
unfolding join
join-nil_cons sep [] h = absurd (h refl)
join-nil_cons sep (p ∷ ps) h = refl

-- Joining what was split gives the text back.
pub join-split : (sep : ℕ) (s : Text) → join sep (split sep s) ≡ s
unfolding split
join-split sep [] = unfold join in refl
join-split sep (c ∷ s) = ground (
  arith,
  join-nil_cons sep (split sep s) (split-ne-nil sep s),
  join-push sep c (split sep s),
  join-split sep s,
)

split-part : (sep : ℕ) (p : Text) → has sep p ≡ false → split sep p ≡ p ∷ []
unfolding split has
split-part sep [] h = refl
split-part sep (c ∷ p) h = ground (arith, split-part sep p)

pub split-append_sep :
    (sep : ℕ) (p s : Text) → split sep (p ++ sep ∷ s) ≡ split sep p ++ split sep s
unfolding split
split-append_sep sep [] s = ground arith
split-append_sep sep (c ∷ p) s = ground (arith, split-append_sep sep p s, split-ne-nil sep p)

-- Splitting what was joined gives the parts back, if there is one and none holds the separator.
pub split-join :
    (sep : ℕ) (ps : List Text)
    → ps ≢ []
    → all_parts (λ p. not (has sep p)) ps ≡ true
    → split sep (join sep ps) ≡ ps
unfolding join all_parts
split-join sep [] n h = absurd (n refl)
split-join sep (p ∷ []) n h = split-part sep p (ground arith)
split-join sep (p ∷ q ∷ ps) n h =
    split-append_sep sep p (join sep (q ∷ ps))
    ∙ ap₂ (λ x y. x ++ y) (split-part sep p (ground arith))
        (split-join sep (q ∷ ps) (λ e. cc) (ground arith))

pub any-append : (f : ℕ → Bool) (s t : Text) → any f (s ++ t) ≡ (any f s || any f t)
unfolding any
any-append f [] t = refl
any-append f (c ∷ s) t = ground (arith, any-append f s t)

-- A character of the joined text is the separator, or stands in a part.
pub any-join :
    (f : ℕ → Bool) (sep : ℕ) (ps : List Text)
    → f sep ≡ false
    → all_parts (λ p. not (any f p)) ps ≡ true
    → any f (join sep ps) ≡ false
unfolding join all_parts any
any-join f sep [] n h = refl
any-join f sep (p ∷ []) n h = ground arith
any-join f sep (p ∷ q ∷ ps) n h =
    ground (arith, any-append f p (sep ∷ join sep (q ∷ ps)), any-join f sep (q ∷ ps))

pub any-split :
    (f : ℕ → Bool) (sep : ℕ) (s : Text)
    → any f s ≡ false
    → all_parts (λ p. not (any f p)) (split sep s) ≡ true
unfolding split all_parts any
any-split f sep [] h = refl
any-split f sep (c ∷ s) h = ground (arith, any-split f sep s)

-- A part has no character that the whole does not have.
pub has-any : (sep : ℕ) (s : Text) → has sep s ≡ any (λ c. c == sep) s
unfolding has any
has-any sep [] = refl
has-any sep (c ∷ s) = ground (arith, has-any sep s)

pub all_parts-and :
    (f g : Text → Bool) (ps : List Text)
    → all_parts f ps ≡ true
    → all_parts g ps ≡ true
    → all_parts (λ p. f p && g p) ps ≡ true
unfolding all_parts
all_parts-and f g [] h k = refl
all_parts-and f g (p ∷ ps) h k = ground (arith, all_parts-and f g ps)

pub all_parts_mono :
    (f g : Text → Bool) (ps : List Text)
    → ((p : Text) → f p ≡ true → g p ≡ true)
    → all_parts f ps ≡ true
    → all_parts g ps ≡ true
unfolding all_parts
all_parts_mono f g [] m h = refl
all_parts_mono f g (p ∷ ps) m h = ground (arith, m p, all_parts_mono f g ps m)

-- `part in parts`, read as a test of each part
pub all_parts-contains :
    (f : Text → Bool) (ps : List Text) (x : Text)
    → all_parts f ps ≡ true
    → contains ps x ≡ true
    → f x ≡ true
unfolding all_parts contains
all_parts-contains f [] x h k = cc
all_parts-contains f (p ∷ ps) x h k = ground (arith, all_parts-contains f ps x, text_eq_iff p x)

pub starts_with-append : (s t : Text) → starts_with (s ++ t) s ≡ true
unfolding starts_with
starts_with-append [] t = refl
starts_with-append (c ∷ s) t = ground (arith, starts_with-append s t)

-- what follows the prefix
unfoldable pub drop_prefix : Text → Text → Text
drop_prefix s [] = s
drop_prefix [] (d ∷ p) = []
drop_prefix (c ∷ s) (d ∷ p) = drop_prefix s p

pub append-drop_prefix : (s p : Text) → starts_with s p ≡ true → p ++ drop_prefix s p ≡ s
unfolding starts_with drop_prefix
append-drop_prefix s [] h = refl
append-drop_prefix [] (d ∷ p) h = cc
append-drop_prefix (c ∷ s) (d ∷ p) h = ground (arith, append-drop_prefix s p)
