-- ===== src/RunSources/Symlink/Contained.antt =====
-- Where a symbolic link that `validate_contained_symlink_target` accepts can lead.
use termroom.Prelude.{
  ℕ, suc, ◌+◌, ◌≤◌, ◌<◌, Bool, true, false, List, [], ◌∷◌, reverse, Text, text_eq, contains,
  is_empty, length, ◌≡◌, ◌≢◌, ◌⊎◌, inl, inr, refl, sym, ap, subst, arith, ◌∙◌,
}
use termroom.Prelude.Result.{ok, err, bind-eq-ok, Result-cases}
use termroom.Prelude.Split.{split, join, split-ne-nil}
use termroom.Prelude.Lists.{take, length-reverse}
use termroom.Prelude.Posix.{metadata, parent_stack, tail, segments_fixed}
use termroom.RunSources.Path.{SourceCode, source_symlink_outside, normalize_source_relative_path}
use termroom.RunSources.Symlink.{step, walk, check_place, validate_contained_symlink_target}
use termroom.RunSources.Path.Strict.{normalize_source-IsSafe, accepted-names}
use termroom.ArchiveSafety.Path.Normal.{IsSafe}
use termroom.RunSources.Symlink.Depth.{ups, downs, walk-depth, walk-metadata}

place-check :
    (is_alpha : ℕ → Bool) (target t : Text) (stack : List Text)
    → check_place is_alpha target stack ≡ ok t
    → (t ≡ target) × ((is_empty stack ≡ true) ⊎ IsSafe (join b'/' (reverse stack)))
unfolding check_place
place-check is_alpha target t [] h = (ground arith, inl refl)
place-check is_alpha target t (p ∷ ps) h =
    let b =
      bind-eq-ok
        (normalize_source_relative_path is_alpha false false (join b'/' (reverse (p ∷ ps))))
        (λ q. ok target) h in
    (
      ground (arith, b.2),
      inr (normalize_source-IsSafe is_alpha (join b'/' (reverse (p ∷ ps))) b.0 b.1).1,
    )

inversion :
    (is_alpha : ℕ → Bool) (link target t : Text)
    → validate_contained_symlink_target is_alpha link target ≡ ok t
    → (safe : Text) × (normalize_source_relative_path is_alpha false false link ≡ ok safe)
      × ((stack : List Text) × (walk (split b'/' target) (parent_stack safe) ≡ ok stack)
          × (check_place is_alpha target stack ≡ ok t))
unfolding validate_contained_symlink_target
inversion is_alpha link target t h =
    elim (Result-cases (normalize_source_relative_path is_alpha false false link)) [
      | inr e ↦ ground (arith, e.1)
      | inl s ↦ elim (Result-cases (walk (split b'/' target) (parent_stack s.0))) [
        | inr e ↦ ground (arith, s.1, e.1)
        | inl w ↦ (s.0, s.1, (w.0, w.1, ground (arith, s.1, w.1)))
      ]
    ]

length-tail : (ps : List Text) → ps ≢ [] → suc (length (tail ps)) ≡ length ps
length-tail [] n = absurd (n refl)
length-tail (p ∷ ps) n = refl

reverse-ne-nil : (ps : List Text) → ps ≢ [] → reverse ps ≢ []
reverse-ne-nil [] n h = n refl
reverse-ne-nil (p ∷ ps) n h = ground (arith, length-reverse (p ∷ ps))

-- the depth of a link that is accepted: the directories that it stands in
depth-parent_stack :
    (is_alpha : ℕ → Bool) (link safe : Text)
    → normalize_source_relative_path is_alpha false false link ≡ ok safe
    → suc (length (parent_stack safe)) ≡ length (split b'/' link)
unfolding parent_stack
depth-parent_stack is_alpha link safe h =
    let a = accepted-names is_alpha link safe h in
    let fixed = segments_fixed (split b'/' link) a.1 in
    subst (λ q. suc (length (parent_stack q)) ≡ length (split b'/' link)) (sym a.0)
      (ap (λ ps. suc (length {A = Text} (tail (reverse ps)))) fixed
        ∙ length-tail (reverse (split b'/' link))
            (reverse-ne-nil (split b'/' link) (split-ne-nil b'/' link))
        ∙ length-reverse (split b'/' link))

-- An accepted symbolic link keeps its target, and the target stays in the Source: along every first
-- part of it, the parts that go up are fewer than the parts of the link and the names met before;
-- and no part is the metadata directory.
pub symlink-contained :
    (is_alpha : ℕ → Bool) (link target t : Text) (n : ℕ)
    → validate_contained_symlink_target is_alpha link target ≡ ok t
    → (t ≡ target)
      × (ups (take n (split b'/' target))
          < length (split b'/' link) + downs (take n (split b'/' target)))
      × (contains (split b'/' target) metadata ≡ false)
symlink-contained is_alpha link target t n h =
    let i = inversion is_alpha link target t h in
    let w = i.2 in
    let p = place-check is_alpha target t w.0 w.2 in
    (
      p.0,
      omega (
        arith,
        depth-parent_stack is_alpha link i.0 i.1,
        walk-depth (split b'/' target) (parent_stack i.0) w.0 n w.1,
      ),
      walk-metadata (split b'/' target) (parent_stack i.0) w.0 w.1,
    )

-- The place that an accepted link leads to is the root of the Source or a strict relative path, out of
-- the metadata directory.
pub symlink-place :
    (is_alpha : ℕ → Bool) (link target t : Text) (stack : List Text)
    → validate_contained_symlink_target is_alpha link target ≡ ok t
    → walk (split b'/' target) (parent_stack link) ≡ ok stack
    → (is_empty stack ≡ true) ⊎ IsSafe (join b'/' (reverse stack))
symlink-place is_alpha link target t stack h w =
    let i = inversion is_alpha link target t h in
    let v = i.2 in
    let a = accepted-names is_alpha link i.0 i.1 in
    let p = place-check is_alpha target t v.0 v.2 in
    subst (λ s. (is_empty s ≡ true) ⊎ IsSafe (join b'/' (reverse s))) (ground (arith, w, v.1, a.0))
      p.1

step-error :
    (p : Text) (stack : List Text) (e : SourceCode)
    → step p stack ≡ err e
    → text_eq p metadata ≡ false
    → e ≡ source_symlink_outside
unfolding step
step-error p [] e h m = ground arith
step-error p (q ∷ stack) e h m = ground arith

walk-error :
    (ps stack : List Text) (e : SourceCode)
    → walk ps stack ≡ err e
    → contains ps metadata ≡ false
    → e ≡ source_symlink_outside
unfolding walk contains
walk-error [] stack e h m = cc
walk-error (p ∷ ps) stack e h m = elim (Result-cases (step p stack)) [
  | inl r ↦ walk-error ps r.0 e (ground (arith, h, r.1)) (ground arith)
  | inr f ↦ ground (arith, h, f.1, step-error p stack f.0 f.1)
]

-- A target that goes above the root of the Source is refused as outside, if the link is a Source's
-- path and no part of the target is the metadata directory.
pub symlink-escape :
    (is_alpha : ℕ → Bool) (link target safe : Text) (n : ℕ)
    → normalize_source_relative_path is_alpha false false link ≡ ok safe
    → contains (split b'/' target) metadata ≡ false
    → length (split b'/' link) + downs (take n (split b'/' target))
      ≤ ups (take n (split b'/' target))
    → validate_contained_symlink_target is_alpha link target ≡ err source_symlink_outside
unfolding validate_contained_symlink_target
symlink-escape is_alpha link target safe n v m d =
    elim (Result-cases (walk (split b'/' target) (parent_stack safe))) [
      | inl w ↦ absurd (
          omega (
            arith,
            d,
            depth-parent_stack is_alpha link safe v,
            walk-depth (split b'/' target) (parent_stack safe) w.0 n w.1,
          ))
      | inr e ↦ ground (arith, v, e.1, walk-error (split b'/' target) (parent_stack safe) e.0 e.1 m)
    ]
