-- ===== src/RunSources/GitUrl.antt =====
-- `validate_public_https_git_url` of termroom/run_sources.py.
pub mod Public
use termroom.Prelude.{
  ◌/◌, Bool, true, ◌||◌, not, Option, none, some, List, [], ◌∷◌, Text, codes, text_eq, is_space,
  strip, is_empty, is_some, if◌then◌else◌,
}
use termroom.Prelude.Result.{Result, ok, err, ◌>>=◌, ◌>>◌, reject}
use termroom.Prelude.Split.{any, has, all_parts, split}
use termroom.Prelude.Posix.{is_control, is_name}
use termroom.RunSources.Path.{
  SourceCode, git_url_required, git_url_whitespace, git_url_control, git_url_invalid, git_url_query,
  git_url_fragment, git_url_scheme, git_url_host, git_url_userinfo, git_url_path,
}

-- what `urlsplit` returns
pub record SplitUrl : Type 0 where
  pub scheme : Text
  pub netloc : Text
  pub path : Text
  pub hostname : Option Text
  pub username : Option Text
  pub password : Option Text

-- `[part for part in parts if part]`
unfoldable pub filled : List Text → List Text
filled [] = []
filled (p ∷ ps) = let rest = filled ps in if is_empty p then rest else p ∷ rest

-- `not parsed.hostname`
abbrev pub no_host : Option Text → Bool
no_host none = true
no_host (some host) = is_empty host

-- the tests of a URL that could be split
unfoldable pub check_parsed : (Text → Text) → SplitUrl → Result SourceCode (Unit {0})
unfolding filled
check_parsed lower parsed = do
  reject (not (text_eq (lower parsed.scheme) (codes "https"))) git_url_scheme
  reject (is_empty parsed.netloc || no_host parsed.hostname) git_url_host
  reject (is_some parsed.username || is_some parsed.password || has b'@' parsed.netloc)
      git_url_userinfo
  reject
      (is_empty (filled (split b'/' parsed.path))
        || not (all_parts is_name (filled (split b'/' parsed.path))))
      git_url_path

-- `urlsplit` gives nothing where it, or the port of what it returns, raises `ValueError`; `lower` is
-- `str.lower`
unfoldable pub validate_public_https_git_url :
    (urlsplit : Text → Option SplitUrl) (lower : Text → Text) → Text → Result SourceCode Text
unfolding is_control is_space strip check_parsed
validate_public_https_git_url urlsplit lower value = do
  reject (is_empty value) git_url_required
  reject (not (text_eq value (strip value)) || any is_space value) git_url_whitespace
  reject (any is_control value) git_url_control
  reject (has b'\\' value) git_url_invalid
  reject (has b'?' value) git_url_query
  reject (has b'#' value) git_url_fragment
  elim (urlsplit value) [
    | none ↦ err git_url_invalid
    | some parsed ↦ (do check_parsed lower parsed; ok value)
  ]
