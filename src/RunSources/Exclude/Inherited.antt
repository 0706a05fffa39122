-- ===== src/RunSources/Exclude/Inherited.antt =====
-- What lies below an excluded directory is excluded (termroom/run_sources.py).
use termroom.Prelude.{
  ℕ, Bool, true, false, ◌||◌, List, [], ◌∷◌, ◌++◌, Text, contains, ◌≡◌, refl, ap, arith, ◌∙◌,
}
use termroom.Prelude.Result.{ok}
use termroom.Prelude.Split.{split, split-append_sep}
use termroom.RunSources.Path.{normalize_source_relative_path}
use termroom.RunSources.Path.Strict.{accepted-names}
use termroom.RunSources.Exclude.{
  any_part, in_excluded_directory, is_default_workspace_excluded, excluded_directory_names,
}

any_part-append :
    (test : Text → Bool) (ps qs : List Text)
    → any_part test (ps ++ qs) ≡ (any_part test ps || any_part test qs)
unfolding any_part
any_part-append test [] qs = refl
any_part-append test (p ∷ ps) qs = ground (arith, any_part-append test ps qs)

inside :
    (path rest : Text)
    → in_excluded_directory (split b'/' path) ≡ true
    → in_excluded_directory (split b'/' (path ++ b'/' ∷ rest)) ≡ true
inside path rest h =
    ap in_excluded_directory (split-append_sep b'/' path rest)
    ∙ any_part-append (contains excluded_directory_names) (split b'/' path) (split b'/' rest)
    ∙ ap (λ b. b || in_excluded_directory (split b'/' rest)) h

decided :
    (is_alpha : ℕ → Bool) (casefold : Text → Text) (path q : Text)
    → normalize_source_relative_path is_alpha false false path ≡ ok q
    → in_excluded_directory (split b'/' path) ≡ true
    → is_default_workspace_excluded is_alpha casefold path ≡ ok true
unfolding is_default_workspace_excluded
decided is_alpha casefold path q n h =
    let a = accepted-names is_alpha path q n in ground (arith, n, a.0, h)

-- Whatever lies below a path that goes through an excluded directory is excluded by default too, if it
-- is a path of a Source.
pub excluded_below :
    (is_alpha : ℕ → Bool) (casefold : Text → Text) (path rest q : Text)
    → in_excluded_directory (split b'/' path) ≡ true
    → normalize_source_relative_path is_alpha false false (path ++ b'/' ∷ rest) ≡ ok q
    → is_default_workspace_excluded is_alpha casefold (path ++ b'/' ∷ rest) ≡ ok true
excluded_below is_alpha casefold path rest q h n =
    decided is_alpha casefold (path ++ b'/' ∷ rest) q n (inside path rest h)
