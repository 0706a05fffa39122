-- ===== src/RunSources/Exclude.antt =====
-- What a Workspace leaves out by default, and what is included explicitly (termroom/run_sources.py).
pub mod Inherited
use termroom.Prelude.{ℕ, ◌-◌, ◌/◌, Bool, false, ◌||◌, List, [], ◌∷◌, Text, codes, text_eq, contains}
use termroom.Prelude.Result.{Result, ok, ◌>>=◌, ◌>>◌}
use termroom.Prelude.Split.{split, starts_with}
use termroom.ArchiveSafety.Path.{ends_with}
use termroom.ArchiveSafety.Conflict.{below}
use termroom.RunSources.Path.{SourceCode, normalize_source_relative_path}

-- `DEFAULT_EXCLUDED_DIRECTORY_NAMES`
abbrev pub excluded_directory_names : List Text
excluded_directory_names =
    codes ".git"
    ∷ codes ".hg"
    ∷ codes ".svn"
    ∷ codes ".venv"
    ∷ codes "venv"
    ∷ codes "node_modules"
    ∷ codes "__pycache__"
    ∷ codes ".pytest_cache"
    ∷ codes ".ruff_cache"
    ∷ codes ".mypy_cache"
    ∷ codes ".tox"
    ∷ codes ".cache"
    ∷ codes ".uv-cache"
    ∷ []

-- `DEFAULT_EXCLUDED_FILE_NAMES`
abbrev pub excluded_file_names : List Text
excluded_file_names =
    codes ".env"
    ∷ codes ".env.local"
    ∷ codes ".env.development"
    ∷ codes ".env.production"
    ∷ codes ".env.test"
    ∷ codes "id_dsa"
    ∷ codes "id_ecdsa"
    ∷ codes "id_ed25519"
    ∷ codes "id_rsa"
    ∷ []

-- `PRIVATE_KEY_SUFFIXES`
abbrev pub private_key_suffixes : List Text
private_key_suffixes = codes ".key" ∷ codes ".p12" ∷ codes ".pfx" ∷ codes ".pem" ∷ []

-- `any(test(part) for part in parts)`
unfoldable pub any_part : (Text → Bool) → List Text → Bool
any_part test [] = false
any_part test (p ∷ ps) = test p || any_part test ps

-- `parts[-1]`
unfoldable pub last_part : List Text → Text
last_part [] = []
last_part (p ∷ []) = p
last_part (p ∷ q ∷ ps) = last_part (q ∷ ps)

abbrev pub in_excluded_directory : List Text → Bool
in_excluded_directory parts = any_part (contains excluded_directory_names) parts

unfoldable pub is_default_workspace_excluded :
    (is_alpha : ℕ → Bool) (casefold : Text → Text) → Text → Result SourceCode Bool
unfolding normalize_source_relative_path any_part last_part contains starts_with ends_with
is_default_workspace_excluded is_alpha casefold relative_path = do
  path ← normalize_source_relative_path is_alpha false false relative_path
  let parts = split b'/' path
  let name = last_part parts
  ok (
      in_excluded_directory parts
      || contains excluded_file_names name
      || starts_with name (codes ".env.")
      || any_part (ends_with (casefold name)) private_key_suffixes)

-- `normalize_explicit_include_paths`
unfoldable pub normalize_explicit_include_paths :
    (ℕ → Bool) → List Text → Result SourceCode (List Text)
unfolding normalize_source_relative_path
normalize_explicit_include_paths is_alpha [] = ok []
normalize_explicit_include_paths is_alpha (value ∷ values) = do
  path ← normalize_source_relative_path is_alpha false false value
  rest ← normalize_explicit_include_paths is_alpha values
  ok (path ∷ rest)

-- `_is_related_to_explicit_include`
unfoldable pub is_related_to_explicit_include : Text → List Text → Bool
unfolding any_part
is_related_to_explicit_include path includes =
    any_part
      (λ include.
        text_eq path include
        || starts_with path (below include)
        || starts_with include (below path))
      includes
