-- ===== src/RunSources/Path/Strict.antt =====
-- What `normalize_source_relative_path` accepts, and how it agrees with the paths of archives.
use termroom.Prelude.{
  ℕ, Bool, true, false, List, [], ◌∷◌, Text, text_eq, eq_of_text_eq, contains, if◌then◌else◌, ◌≡◌,
  inl, inr, refl, arith, Bool-cases,
}
use termroom.Prelude.Result.{ok}
use termroom.Prelude.Split.{any, has, all_parts, split}
use termroom.Prelude.Posix.{is_control, is_surrogate, dot, metadata, is_name}
use termroom.ArchiveSafety.Path.{normalize_zip_member_path}
use termroom.ArchiveSafety.Path.Normal.{IsSafe, is_safe_part, starts_absolute, normalize-IsSafe}
use termroom.RunSources.Path.{has_drive, normalize_source_relative_path, validate_cwd_rel}

names-safe :
    (ps : List Text)
    → all_parts is_name ps ≡ true
    → contains ps metadata ≡ false
    → all_parts is_safe_part ps ≡ true
unfolding all_parts contains
names-safe [] h m = refl
names-safe (p ∷ ps) h m = ground (arith, names-safe ps)

safe-names :
    (ps : List Text)
    → all_parts is_safe_part ps ≡ true
    → (all_parts is_name ps ≡ true) × (contains ps metadata ≡ false)
unfolding all_parts contains
safe-names [] h = (refl, refl)
safe-names (p ∷ ps) h = ground (arith, safe-names ps)

pub accepted-names :
    (is_alpha : ℕ → Bool) (value p : Text)
    → normalize_source_relative_path is_alpha false false value ≡ ok p
    → (p ≡ value)
      × (all_parts is_name (split b'/' value) ≡ true)
      × (contains (split b'/' value) metadata ≡ false)
      × (any is_control value ≡ false)
      × (has b'\\' value ≡ false)
      × (any is_surrogate value ≡ false)
unfolding normalize_source_relative_path
accepted-names is_alpha value p h = ground arith

at_dot :
    (is_alpha : ℕ → Bool)
    → validate_cwd_rel is_alpha dot ≡ (
        if text_eq dot dot then ok dot else normalize_source_relative_path is_alpha false false dot)
unfolding validate_cwd_rel normalize_source_relative_path is_control is_surrogate any has text_eq
at_dot is_alpha = refl

-- A path that `normalize_source_relative_path` accepts for a Source is returned unchanged, and
-- it is a strict relative path that stays out of the metadata directory.
pub normalize_source-IsSafe :
    (is_alpha : ℕ → Bool) (value p : Text)
    → normalize_source_relative_path is_alpha false false value ≡ ok p
    → (p ≡ value) × IsSafe value
unfolding normalize_source_relative_path
normalize_source-IsSafe is_alpha value p h =
    let a = accepted-names is_alpha value p h in
    (
      a.0,
      record {
        parts_safe = names-safe (split b'/' value) a.1 a.2;
        no_control = a.3;
        no_backslash = a.4;
        encodable = a.5;
      },
    )

-- Every strict relative path is accepted as it stands, if it does not begin with a drive.
pub normalize_source-safe :
    (is_alpha : ℕ → Bool) (value : Text)
    → IsSafe value
    → has_drive is_alpha value ≡ false
    → normalize_source_relative_path is_alpha false false value ≡ ok value
unfolding normalize_source_relative_path
normalize_source-safe is_alpha value s d =
    let n = safe-names (split b'/' value) s.parts_safe in
    let a = starts_absolute value s.parts_safe in ground (arith, n, a, d, s)

-- A path that `normalize_zip_member_path` returned is accepted unchanged as a path of a Source, if
-- it does not begin with a drive.
pub zip_path_is_source_path :
    (is_alpha : ℕ → Bool) (raw p : Text)
    → normalize_zip_member_path raw ≡ ok p
    → has_drive is_alpha p ≡ false
    → normalize_source_relative_path is_alpha false false p ≡ ok p
zip_path_is_source_path is_alpha raw p h d =
    normalize_source-safe is_alpha p (normalize-IsSafe raw p h).0 d

-- `validate_cwd_rel` accepts `.`, and treats every other text as the path of a Source, with the same
-- result and the same error.
pub validate_cwd_rel_lem :
    (is_alpha : ℕ → Bool) (value : Text)
    → validate_cwd_rel is_alpha value ≡ (
        if text_eq value dot
        then ok dot
        else normalize_source_relative_path is_alpha false false value)
unfolding validate_cwd_rel normalize_source_relative_path
validate_cwd_rel_lem is_alpha value = elim (Bool-cases (text_eq value dot)) [
  | inl e ↦ (rw (eq_of_text_eq value dot e) (at_dot is_alpha))
  | inr n ↦ ground (arith, n)
]
