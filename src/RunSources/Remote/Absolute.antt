-- ===== src/RunSources/Remote/Absolute.antt =====
-- The tests of the paths that `_validate_absolute_remote_path` accepts.
use termroom.Prelude.{
  ℕ, true, false, not, List, [], ◌∷◌, ◌++◌, Text, codes, text_eq, text_eq_refl, text_eq_iff,
  contains, is_empty, ◌==◌, if◌then◌else◌, ◌≡◌, ◌⊎◌, inl, inr, refl, sym, ap, subst, arith,
  Bool-cases, ◌∙◌,
}
use termroom.Prelude.Result.{ok}
use termroom.Prelude.Split.{any, has, all_parts, split, join, starts_with, split-lacks, split-join}
use termroom.Prelude.Posix.{
  is_control, dot, dots, segments, root, as_posix, is_name, segments-names, segments_fixed,
  segments-all_parts,
}
use termroom.RunSources.Path.{require_metadata_line}
use termroom.RunSources.Remote.{is_literal, validate_absolute_remote_path}

-- the tests say one or two slashes, then names with single slashes between them
pub record IsAbsolute (p : Text) : Type 0 where
  pub start : Text
  pub names : List Text
  pub whole : p ≡ start ++ join b'/' names
  pub named : all_parts is_name names ≡ true
  pub separate : all_parts (λ q. not (has b'/' q)) names ≡ true
  pub slashes : ((start ≡ codes "/") × (is_empty names ≡ false)) ⊎ (start ≡ codes "//")
  pub no_control : any is_control p ≡ false
  pub no_backslash : has b'\\' p ≡ false

literal-lack_dots : (ps : List Text) → all_parts is_literal ps ≡ true → contains ps dots ≡ false
unfolding all_parts contains
literal-lack_dots [] h = refl
literal-lack_dots (p ∷ ps) h = ground (arith, literal-lack_dots ps)

tests :
    (value p : Text)
    → validate_absolute_remote_path value ≡ ok p
    → (p ≡ value)
      × (as_posix value ≡ value)
      × (text_eq value (codes "/") ≡ false)
      × (all_parts is_literal (split b'/' value) ≡ true)
      × (starts_with value (codes "/") ≡ true)
      × (any is_control value ≡ false)
      × (has b'\\' value ≡ false)
unfolding validate_absolute_remote_path require_metadata_line
tests value p h = ground (arith, text_eq_iff (as_posix value) value)

root-slashes :
    (value : Text)
    → starts_with value (codes "/") ≡ true
    → (root value ≡ codes "/") ⊎ (root value ≡ codes "//")
unfolding root
root-slashes value h = ground (arith, h)

shown_if : (r x : Text) → is_empty r ≡ false → (if is_empty (r ++ x) then dot else r ++ x) ≡ r ++ x
shown_if [] x h = cc
shown_if (c ∷ r) x h = refl

as_posix-root :
    (value : Text)
    → starts_with value (codes "/") ≡ true
    → as_posix value ≡ root value ++ join b'/' (segments (split b'/' value))
unfolding as_posix
as_posix-root value h =
    shown_if (root value) (join b'/' (segments (split b'/' value)))
      (elim (root-slashes value h) [ inl e ↦ ap is_empty e | inr e ↦ ap is_empty e ])

slash-names :
    (value start : Text) (names : List Text)
    → value ≡ start ++ join b'/' names
    → text_eq value (codes "/") ≡ false
    → start ≡ codes "/"
    → is_empty names ≡ false
unfolding join
slash-names value start [] w n e = ground (arith, text_eq_refl (codes "/"))
slash-names value start (p ∷ ps) w n e = refl

pub validate-IsAbsolute :
    (value p : Text) → validate_absolute_remote_path value ≡ ok p → (p ≡ value) × IsAbsolute value
validate-IsAbsolute value p h =
    let t = tests value p h in
    let w = sym t.1 ∙ as_posix-root value t.4 in
    (
      t.0,
      record {
        start = root value;
        names = segments (split b'/' value);
        whole = w;
        named = segments-names (split b'/' value) (literal-lack_dots (split b'/' value) t.3);
        separate =
            segments-all_parts (λ q. not (has b'/' q)) (split b'/' value) (split-lacks b'/' value);
        slashes = elim (root-slashes value t.4) [
          | inl e ↦ inl (e, slash-names value (root value) (segments (split b'/' value)) w t.2 e)
          | inr e ↦ inr e
        ];
        no_control = t.5;
        no_backslash = t.6;
      },
    )

accepts_shape :
    (p : Text)
    → as_posix p ≡ p
    → text_eq p (codes "/") ≡ false
    → all_parts is_literal (split b'/' p) ≡ true
    → starts_with p (codes "/") ≡ true
    → any is_control p ≡ false
    → has b'\\' p ≡ false
    → validate_absolute_remote_path p ≡ ok p
unfolding validate_absolute_remote_path require_metadata_line
accepts_shape [] a n l s c b = ground arith
accepts_shape (x ∷ p) a n l s c b = ground (arith, text_eq_iff (as_posix (x ∷ p)) (x ∷ p))

names-literal : (ps : List Text) → all_parts is_name ps ≡ true → all_parts is_literal ps ≡ true
unfolding all_parts
names-literal [] h = refl
names-literal (p ∷ ps) h = ground (arith, names-literal ps)

first_of :
    (names : List Text)
    → is_empty names ≡ false
    → all_parts is_name names ≡ true
    → all_parts (λ q. not (has b'/' q)) names ≡ true
    → (c : ℕ) × (s : Text) × (join b'/' names ≡ c ∷ s) × ((c == b'/') ≡ false)
unfolding all_parts has join
first_of [] e n l = cc
first_of ([] ∷ ps) e n l = cc
first_of ((c ∷ q) ∷ []) e n l = (c, q, refl, ground arith)
first_of ((c ∷ q) ∷ p ∷ ps) e n l = (c, q ++ b'/' ∷ join b'/' (p ∷ ps), refl, ground arith)

module _ (names : List Text) (e : is_empty names ≡ false) (n : all_parts is_name names ≡ true)
    (l : all_parts (λ q. not (has b'/' q)) names ≡ true) where
  split-names : split b'/' (join b'/' names) ≡ names
  split-names = split-join b'/' names (λ z. ground (arith, e)) l

  one_slash :
      (as_posix (b'/' ∷ join b'/' names) ≡ b'/' ∷ join b'/' names)
      × (text_eq (b'/' ∷ join b'/' names) (codes "/") ≡ false)
      × (all_parts is_literal (split b'/' (b'/' ∷ join b'/' names)) ≡ true)
      × (starts_with (b'/' ∷ join b'/' names) (codes "/") ≡ true)
  unfolding as_posix root split starts_with segments all_parts text_eq
  one_slash =
      let f = first_of names e n l in
      ground (arith, f, split-names, segments_fixed names n, names-literal names n)

  two_slashes :
      (as_posix (b'/' ∷ b'/' ∷ join b'/' names) ≡ b'/' ∷ b'/' ∷ join b'/' names)
      × (text_eq (b'/' ∷ b'/' ∷ join b'/' names) (codes "/") ≡ false)
      × (all_parts is_literal (split b'/' (b'/' ∷ b'/' ∷ join b'/' names)) ≡ true)
      × (starts_with (b'/' ∷ b'/' ∷ join b'/' names) (codes "/") ≡ true)
  unfolding as_posix root split starts_with segments all_parts text_eq
  two_slashes =
      let f = first_of names e n l in
      ground (arith, f, split-names, segments_fixed names n, names-literal names n)

accepts_as :
    (p q : Text)
    → p ≡ q
    → (as_posix q ≡ q)
      × (text_eq q (codes "/") ≡ false)
      × (all_parts is_literal (split b'/' q) ≡ true)
      × (starts_with q (codes "/") ≡ true)
    → any is_control p ≡ false
    → has b'\\' p ≡ false
    → validate_absolute_remote_path p ≡ ok p
accepts_as p q e t c b =
    subst
      (λ r. any is_control r ≡ false → has b'\\' r ≡ false → validate_absolute_remote_path r ≡ ok r)
      (sym e) (accepts_shape q t.0 t.1 t.2 t.3) c b

empty-join : (names : List Text) → is_empty names ≡ true → join b'/' names ≡ []
unfolding join
empty-join [] e = refl
empty-join (p ∷ ps) e = cc

root_twice : validate_absolute_remote_path (codes "//") ≡ ok (codes "//")
unfolding validate_absolute_remote_path require_metadata_line as_posix root split starts_with
    segments all_parts text_eq any has join is_control
root_twice = refl

pub validate-absolute : (p : Text) → IsAbsolute p → validate_absolute_remote_path p ≡ ok p
validate-absolute p a =
    let start_with = λ (r : Text). r ++ join b'/' a.names in
    elim a.slashes [
      | inl s ↦
          accepts_as p (b'/' ∷ join b'/' a.names) (a.whole ∙ ap start_with s.0)
            (one_slash a.names s.1 a.named a.separate) a.no_control a.no_backslash
      | inr d ↦ elim (Bool-cases (is_empty a.names)) [
        | inl e ↦
            (rw (a.whole ∙ ap start_with d ∙ ap (λ r. codes "//" ++ r) (empty-join a.names e))
              root_twice)
        | inr n ↦
            accepts_as p (b'/' ∷ b'/' ∷ join b'/' a.names) (a.whole ∙ ap start_with d)
              (two_slashes a.names n a.named a.separate) a.no_control a.no_backslash
      ]
    ]
