-- ===== src/RunSources/Symlink/Depth.antt =====
-- How far up and down the walk of `validate_contained_symlink_target` goes.
use termroom.Prelude.{
  ℕ, zero, suc, ◌+◌, ◌≤◌, Bool, true, false, ◌||◌, List, [], ◌∷◌, Text, text_eq, eq_of_text_eq,
  contains, is_empty, length, if◌then◌else◌, ◌≡◌, ◌≢◌, inl, inr, refl, arith,
}
use termroom.Prelude.Result.{ok, err, bind-eq-ok, Result-cases}
use termroom.Prelude.Lists.{take}
use termroom.Prelude.Posix.{dot, dots, metadata, is_name}
use termroom.RunSources.Path.{SourceCode}
use termroom.RunSources.Symlink.{step, walk}

-- the number of parts that go up, and of parts that go down
unfoldable pub ups : List Text → ℕ
ups [] = 0
ups (p ∷ ps) = let rest = ups ps in if text_eq p dots then suc rest else rest

unfoldable pub downs : List Text → ℕ
downs [] = 0
downs (p ∷ ps) = let rest = downs ps in if is_name p then suc rest else rest

abbrev one_if : Bool → ℕ
one_if true = 1
one_if false = 0

dots_not_dot : (p : Text) → text_eq p dots ≡ true → (is_empty p || text_eq p dot) ≡ false
unfolding text_eq
dots_not_dot p h = rw (eq_of_text_eq p dots h) refl

metadata_is_name :
    (p : Text)
    → text_eq p metadata ≡ true
    → ((is_empty p || text_eq p dot) ≡ false) × (text_eq p dots ≡ false)
unfolding text_eq
metadata_is_name p h = rw (eq_of_text_eq p metadata h) (refl, refl)

-- one part moves the depth by what it says
step-depth :
    (p : Text) (stack next : List Text)
    → step p stack ≡ ok next
    → (text_eq p metadata ≡ false)
      × (length next + one_if (text_eq p dots) ≡ length stack + one_if (is_name p))
unfolding step
step-depth p [] next h = ground (arith, dots_not_dot p, metadata_is_name p)
step-depth p (q ∷ stack) next h = ground (arith, dots_not_dot p, metadata_is_name p)

pub walk-depth :
    (ps stack s : List Text) (n : ℕ)
    → walk ps stack ≡ ok s
    → ups (take n ps) ≤ length stack + downs (take n ps)
unfolding walk ups downs take
walk-depth [] stack s zero h = omega arith
walk-depth [] stack s (suc n) h = omega arith
walk-depth (p ∷ ps) stack s zero h = omega arith
walk-depth (p ∷ ps) stack s (suc n) h =
    let b = bind-eq-ok (step p stack) (walk ps) h in
    ground (arith, walk-depth ps b.0 s n b.2, step-depth p stack b.0 b.1)

pub walk-metadata : (ps stack s : List Text) → walk ps stack ≡ ok s → contains ps metadata ≡ false
unfolding walk contains
walk-metadata [] stack s h = refl
walk-metadata (p ∷ ps) stack s h =
    let b = bind-eq-ok (step p stack) (walk ps) h in
    ground (arith, walk-metadata ps b.0 s b.2, step-depth p stack b.0 b.1)

step_refused :
    (p : Text) (stack : List Text) (e : SourceCode)
    → text_eq p metadata ≡ false
    → one_if (text_eq p dots) ≤ length stack + one_if (is_name p)
    → step p stack ≢ err e
unfolding step
step_refused p [] e m d h = ground (arith, dots_not_dot p)
step_refused p (q ∷ stack) e m d h = ground (arith, dots_not_dot p)

step_total :
    (p : Text) (stack : List Text)
    → text_eq p metadata ≡ false
    → one_if (text_eq p dots) ≤ length stack + one_if (is_name p)
    → (next : List Text) × (step p stack ≡ ok next)
step_total p stack m d = elim (Result-cases (step p stack)) [
  | inl r ↦ r
  | inr e ↦ absurd (step_refused p stack e.0 m d e.1)
]

-- The walk along a target succeeds if every first part of it goes up at most as often as the depth of
-- the link and the names before it allow, and no part is the metadata directory.
pub walk_total :
    (ps stack : List Text)
    → ((n : ℕ) → ups (take n ps) ≤ length stack + downs (take n ps))
    → contains ps metadata ≡ false
    → (s : List Text) × (walk ps stack ≡ ok s)
unfolding walk contains ups downs take
walk_total [] stack d m = (stack, refl)
walk_total (p ∷ ps) stack d m =
    let t = step_total p stack (ground arith) (ground (arith, d 1)) in
    let k = step-depth p stack t.0 t.1 in
    let w = walk_total ps t.0 (λ n. ground (arith, d (suc n), k)) (ground arith) in
    (w.0, rw t.1 w.1)
