-- ===== src/RunSources/GitUrl/Public.antt =====
-- Exactly which URLs `validate_public_https_git_url` accepts.
use termroom.Prelude.{
  Bool, true, false, ◌||◌, Option, none, some, List, [], ◌∷◌, Text, codes, text_eq_iff,
  eq_of_text_eq, is_space, strip, is_empty, is_some, ◌≡◌, ◌≢◌, ◌↔◌, inl, inr, refl, arith,
  Option-cases,
}
use termroom.Prelude.Result.{ok}
use termroom.Prelude.Split.{any, has, all_parts, split}
use termroom.Prelude.Posix.{is_control, is_name}
use termroom.Prelude.Strip.{strip_fixed}
use termroom.RunSources.GitUrl.{
  SplitUrl, filled, no_host, check_parsed, validate_public_https_git_url,
}

-- a part of the path is empty or names something
abbrev pub is_clear : Text → Bool
is_clear p = is_empty p || is_name p

-- an anonymous HTTPS URL, without spaces, control characters, backslash, query and fragment
pub record IsPublicUrl (lower : Text → Text) (value : Text) (parsed : SplitUrl) : Type 0 where
  pub not_empty : is_empty value ≡ false
  pub no_space : any is_space value ≡ false
  pub no_control : any is_control value ≡ false
  pub no_mark : (has b'\\' value || has b'?' value || has b'#' value) ≡ false
  pub https : lower parsed.scheme ≡ codes "https"
  pub host : (is_empty parsed.netloc || no_host parsed.hostname) ≡ false
  pub anonymous :
      (is_some parsed.username || is_some parsed.password || has b'@' parsed.netloc) ≡ false
  pub clear : all_parts is_clear (split b'/' parsed.path) ≡ true
  pub names : all_parts is_empty (split b'/' parsed.path) ≡ false

filled-clear :
    (ps : List Text)
    → (all_parts is_name (filled ps) ≡ all_parts is_clear ps)
      × (is_empty (filled ps) ≡ all_parts is_empty ps)
unfolding filled all_parts
filled-clear [] = (refl, refl)
filled-clear (p ∷ ps) = ground (arith, filled-clear ps)

module _ (urlsplit : Text → Option SplitUrl) (lower : Text → Text) (value u : Text) where
  unsplit : urlsplit value ≡ none → validate_public_https_git_url urlsplit lower value ≢ ok u
  unfolding validate_public_https_git_url
  unsplit n h = ground (arith, n)

  module _ (parsed : SplitUrl) (e : urlsplit value ≡ some parsed) where
    accepted :
        validate_public_https_git_url urlsplit lower value ≡ ok u
        → (u ≡ value) × IsPublicUrl lower value parsed
    unfolding validate_public_https_git_url check_parsed
    accepted h =
        let f = filled-clear (split b'/' parsed.path) in
        (
          ground (arith, e),
          record {
            not_empty = ground (arith, e);
            no_space = ground (arith, e);
            no_control = ground (arith, e);
            no_mark = ground (arith, e);
            https = eq_of_text_eq (lower parsed.scheme) (codes "https") (ground (arith, e));
            host = ground (arith, e);
            anonymous = ground (arith, e);
            clear = ground (arith, e, f);
            names = ground (arith, e, f);
          },
        )

    accepts :
        IsPublicUrl lower value parsed
        → validate_public_https_git_url urlsplit lower value ≡ ok value
    unfolding validate_public_https_git_url check_parsed
    accepts v =
        let f = filled-clear (split b'/' parsed.path) in
        ground (
          arith,
          e,
          f,
          v,
          strip_fixed value v.no_space,
          text_eq_iff value (strip value),
          text_eq_iff (lower parsed.scheme) (codes "https"),
        )

-- `validate_public_https_git_url` accepts exactly the anonymous public HTTPS URLs, and returns them
-- unchanged: those that can be split, with no white space, control character, backslash, query or
-- fragment, the scheme `https`, a host, no credentials, and a path that has a part that is not
-- empty and none that is `.` or `..`.
pub validate_url_iff :
    (urlsplit : Text → Option SplitUrl) (lower : Text → Text) (value u : Text)
    → (validate_public_https_git_url urlsplit lower value ≡ ok u) ↔ (
        (u ≡ value)
        × ((parsed : SplitUrl) × (urlsplit value ≡ some parsed) × IsPublicUrl lower value parsed))
validate_url_iff urlsplit lower value u = (
  λ h. elim (Option-cases (urlsplit value)) [
    | inl n ↦ absurd (unsplit urlsplit lower value u n h)
    | inr p ↦ (let a = accepted urlsplit lower value u p.0 p.1 h in (a.0, (p.0, p.1, a.1)))
  ],
  λ r. let p = r.1 in rw r.0 (accepts urlsplit lower value u p.0 p.1 p.2),
)
