-- ===== src/ArchiveSafety/Path/Normal.antt =====
-- What `normalize_zip_member_path` returns.
use termroom.Prelude.{
  ℕ, Bool, true, false, ◌&&◌, ◌||◌, not, List, [], ◌∷◌, ◌++◌, Text, codes, text_eq, eq_of_text_eq,
  contains, is_empty, ◌==◌, if◌then◌else◌, ◌≡◌, ◌≢◌, refl, sym, ap, arith, ◌∙◌,
}
use termroom.Prelude.Result.{ok, err}
use termroom.Prelude.Split.{
  any, has, all_parts, split, join, starts_with, split-ne-nil, split-lacks, join-split, split-join,
  any-join, any-split, has-any,
}
use termroom.ArchiveSafety.Path.{
  zip_path_absolute, zip_path_traversal, is_control, is_surrogate, has_drive, dot, dots, metadata,
  collect_parts, normalize_zip_member_path,
}

abbrev pub is_safe_part : Text → Bool
is_safe_part p =
    not (is_empty p) && not (text_eq p dot) && not (text_eq p dots) && not (text_eq p metadata)

-- the parts that name something
unfoldable pub kept : List Text → List Text
kept [] = []
kept (p ∷ ps) = let rest = kept ps in if is_empty p || text_eq p dot then rest else p ∷ rest

-- a strict, relative POSIX path: no part of it is empty, `.`, `..` or the metadata directory
pub record IsSafe (p : Text) : Type 0 where
  pub parts_safe : all_parts is_safe_part (split b'/' p) ≡ true
  pub no_control : any is_control p ≡ false
  pub no_backslash : has b'\\' p ≡ false
  pub encodable : any is_surrogate p ≡ false

dot_not_dots : (p : Text) → text_eq p dot ≡ true → text_eq p dots ≡ false
unfolding text_eq
dot_not_dots p h = rw (eq_of_text_eq p dot h)

empty_not_dots : (p : Text) → is_empty p ≡ true → text_eq p dots ≡ false
unfolding text_eq
empty_not_dots [] h = refl
empty_not_dots (c ∷ p) h = cc

-- the loop refuses `..` wherever it stands, and otherwise keeps the parts that name something
pub collect_parts-eq :
    (ps : List Text)
    → collect_parts ps ≡ (if contains ps dots then err zip_path_traversal else ok (kept ps))
unfolding collect_parts kept contains
collect_parts-eq [] = refl
collect_parts-eq (p ∷ ps) = ground (arith, collect_parts-eq ps, dot_not_dots p, empty_not_dots p)

kept-all_parts :
    (f : Text → Bool) (ps : List Text) → all_parts f ps ≡ true → all_parts f (kept ps) ≡ true
unfolding kept all_parts
kept-all_parts f [] h = refl
kept-all_parts f (p ∷ ps) h = ground (arith, kept-all_parts f ps)

kept-safe :
    (ps : List Text)
    → contains ps dots ≡ false
    → contains (kept ps) metadata ≡ false
    → all_parts is_safe_part (kept ps) ≡ true
unfolding kept all_parts contains
kept-safe [] d m = refl
kept-safe (p ∷ ps) d m = ground (arith, kept-safe ps)

kept-kept :
    (ps : List Text)
    → all_parts is_safe_part ps ≡ true
    → (kept ps ≡ ps) × (contains ps dots ≡ false) × (contains ps metadata ≡ false)
unfolding kept all_parts contains
kept-kept [] h = (refl, refl, refl)
kept-kept (p ∷ ps) h = ground (arith, kept-kept ps)

-- every test that the function makes, in one equation
abbrev refused : Text → Bool
refused raw =
    is_empty raw
    || any is_control raw
    || has b'\\' raw
    || starts_with raw (codes "/")
    || has_drive raw
    || contains (split b'/' raw) dots
    || is_empty (kept (split b'/' raw))
    || contains (kept (split b'/' raw)) metadata
    || any is_surrogate (join b'/' (kept (split b'/' raw)))

normalize_inversion :
    (raw p : Text)
    → normalize_zip_member_path raw ≡ ok p
    → (refused raw ≡ false) × (p ≡ join b'/' (kept (split b'/' raw)))
unfolding normalize_zip_member_path
normalize_inversion raw p h = ground (arith, collect_parts-eq (split b'/' raw))

nonempty : {A : Type 0} (xs : List A) → is_empty xs ≡ false → xs ≢ []
nonempty [] h e = cc
nonempty (x ∷ xs) h e = cc

pub is_empty-normalize :
    (raw p : Text) → normalize_zip_member_path raw ≡ ok p → is_empty raw ≡ false
is_empty-normalize raw p h = let i = normalize_inversion raw p h in ground (arith, i.0)

module _ (raw p : Text) (h : normalize_zip_member_path raw ≡ ok p) where
  parts-normalize : split b'/' p ≡ kept (split b'/' raw)
  parts-normalize =
      let i = normalize_inversion raw p h in
      ap (split b'/') i.1
      ∙ split-join b'/' (kept (split b'/' raw))
          (nonempty (kept (split b'/' raw)) (ground (arith, i.0)))
          (kept-all_parts (λ q. not (has b'/' q)) (split b'/' raw) (split-lacks b'/' raw))

  any-normalize : (f : ℕ → Bool) → f b'/' ≡ false → any f raw ≡ false → any f p ≡ false
  any-normalize f slash none_raw =
      let i = normalize_inversion raw p h in
      ap (any f) i.1
      ∙ any-join f b'/' (kept (split b'/' raw)) slash
          (kept-all_parts (λ q. not (any f q)) (split b'/' raw) (any-split f b'/' raw none_raw))

  -- An accepted name comes back as the path of exactly those of its parts that name something, and
  -- the path is safe: no part of it, as a later split at the slashes shows it, is empty, `.`, `..`
  -- or `.termroom`, and it has no control character, no backslash and no surrogate.
  pub normalize-IsSafe : IsSafe p × (split b'/' p ≡ kept (split b'/' raw))
  unfolding is_control
  normalize-IsSafe =
      let i = normalize_inversion raw p h in
      (
        record {
          parts_safe =
              rw parts-normalize
                (kept-safe (split b'/' raw) (ground (arith, i.0)) (ground (arith, i.0)));
          no_control = any-normalize is_control refl (ground (arith, i.0));
          no_backslash =
              has-any b'\\' p
              ∙ any-normalize (λ c. c == b'\\') refl
                  (sym (has-any b'\\' raw) ∙ ground (arith, i.0));
          encodable = ap (any is_surrogate) i.1 ∙ ground (arith, i.0);
        },
        parts-normalize,
      )

pub starts_absolute :
    (p : Text)
    → all_parts is_safe_part (split b'/' p) ≡ true
    → (is_empty p ≡ false) × (starts_with p (codes "/") ≡ false)
unfolding split all_parts starts_with
starts_absolute [] h = cc
starts_absolute (c ∷ p) h = ground arith

-- A safe path is its own normal form, but for one that begins with a drive letter and a colon, which
-- is refused as absolute.
pub normalize_safe :
    (p : Text)
    → IsSafe p
    → normalize_zip_member_path p ≡ (if has_drive p then err zip_path_absolute else ok p)
unfolding normalize_zip_member_path
normalize_safe p v =
    let k = kept-kept (split b'/' p) v.parts_safe in
    let a = starts_absolute p v.parts_safe in
    ground (arith, collect_parts-eq (split b'/' p), k, a, join-split b'/' p, split-ne-nil b'/' p)

module _ (p : Text) where
  split-dotted : split b'/' (codes "./" ++ p) ≡ dot ∷ split b'/' p
  unfolding split
  split-dotted = refl

  any-dotted : any is_control (codes "./" ++ p) ≡ any is_control p
  unfolding any is_control
  any-dotted = refl

  has-dotted : has b'\\' (codes "./" ++ p) ≡ has b'\\' p
  unfolding has
  has-dotted = refl

  relative-dotted :
      (starts_with (codes "./" ++ p) (codes "/") || has_drive (codes "./" ++ p)) ≡ false
  unfolding starts_with has_drive
  relative-dotted = refl

  parts-dotted :
      (contains (dot ∷ split b'/' p) dots ≡ contains (split b'/' p) dots)
      × (kept (dot ∷ split b'/' p) ≡ kept (split b'/' p))
  unfolding contains kept text_eq
  parts-dotted = (refl, refl)

  dotted : IsSafe p → normalize_zip_member_path (codes "./" ++ p) ≡ ok p
  unfolding normalize_zip_member_path
  dotted v =
      let k = kept-kept (split b'/' p) v.parts_safe in
      let a = starts_absolute p v.parts_safe in
      ground (
        arith,
        split-dotted,
        collect_parts-eq (dot ∷ split b'/' p),
        any-dotted,
        has-dotted,
        relative-dotted,
        parts-dotted,
        k,
        a,
        v,
        join-split b'/' p,
        split-ne-nil b'/' p,
      )

-- A path that begins with a drive letter and a colon, and is safe otherwise, slips through behind
-- `./`: the name is accepted, and what it is normalized to is then refused as absolute.
pub drive_behind_dot :
    (p : Text)
    → IsSafe p
    → has_drive p ≡ true
    → (normalize_zip_member_path (codes "./" ++ p) ≡ ok p)
      × (normalize_zip_member_path p ≡ err zip_path_absolute)
drive_behind_dot p v d = (dotted p v, normalize_safe p v ∙ rw d)
