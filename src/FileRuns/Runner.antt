-- ===== src/FileRuns/Runner.antt =====
-- `resolve_runner` of termroom/file_runs.py: how a file is run.
use termroom.Prelude.{
  ℕ, Bool, ◌&&◌, ◌||◌, Option, none, some, List, [], ◌∷◌, ◌++◌, Text, codes, text_eq, contains,
  is_empty, ◌==◌, if◌then◌else◌,
}
use termroom.Prelude.Split.{split, starts_with}
use termroom.Prelude.Lists.{drop}
use termroom.Prelude.Posix.{dot, dots, segments, as_posix}

-- `RUNNER_REGISTRY_VERSION`
abbrev pub registry_version : ℕ
registry_version = 1

pub record RunnerSpec : Type 0 where
  pub id : Text
  pub suffixes : List Text
  pub program : Text
  pub arguments : List Text
  pub runtime_error_code : Text

pub record ResolvedRunner : Type 0 where
  pub id : Text
  pub version : ℕ
  pub argv : List Text
  pub runtime_error_code : Text

-- of termroom/files.py
pub record RunnableFile : Type 0 where
  pub relative_path : Text
  pub digest : Text
  pub executable : Bool
  pub has_shebang : Bool

-- `RUNNER_SPECS`
abbrev pub runner_specs : List RunnerSpec
runner_specs =
    record {
      id = codes "python3";
      suffixes = codes ".py" ∷ [];
      program = codes "python3";
      arguments = codes "--" ∷ [];
      runtime_error_code = codes "python3_missing";
    }
    ∷ record {
      id = codes "node";
      suffixes = codes ".js" ∷ codes ".mjs" ∷ codes ".cjs" ∷ [];
      program = codes "node";
      arguments = codes "--" ∷ [];
      runtime_error_code = codes "nodejs_missing";
    }
    ∷ record {
      id = codes "bash";
      suffixes = codes ".sh" ∷ codes ".bash" ∷ [];
      program = codes "bash";
      arguments = codes "--noprofile" ∷ codes "--norc" ∷ codes "--" ∷ [];
      runtime_error_code = codes "bash_missing";
    }
    ∷ []

-- `SUFFIX_RUNNERS.get(suffix)`
unfoldable pub spec_for : List RunnerSpec → Text → Option RunnerSpec
unfolding contains
spec_for [] suffix = none
spec_for (spec ∷ specs) suffix =
    let rest = spec_for specs suffix in if contains spec.suffixes suffix then some spec else rest

-- the text from its last dot on
unfoldable pub from_last_dot : Text → Option Text
from_last_dot [] = none
from_last_dot (c ∷ s) = elim (from_last_dot s) [
  | some t ↦ some t
  | none ↦ if c == b'.' then some (c ∷ s) else none
]

abbrev pub last_of : List Text → Text
last_of [] = []
last_of (p ∷ []) = p
last_of (p ∷ q ∷ ps) = last_of (q ∷ ps)

-- `PurePosixPath.suffix` of a name: no dot at its start or its end counts
unfoldable pub suffix_of : Text → Text
unfolding from_last_dot drop
suffix_of name = elim (from_last_dot (drop 1 name)) [
  | none ↦ []
  | some t ↦ if text_eq t dot then [] else t
]

-- the path of the file as the argument of a program
abbrev pub executable_path : Text → Text
executable_path path = codes "./" ++ as_posix path

-- nothing for a path that is refused with `ValueError`
unfoldable pub resolve_runner : RunnableFile → Option (Option ResolvedRunner)
unfolding spec_for suffix_of segments as_posix
resolve_runner f =
    let parts = segments (split b'/' f.relative_path) in
    if starts_with f.relative_path (codes "/") || is_empty parts || contains parts dots
    then none
    else if f.executable && f.has_shebang
    then some (
        some (record {
          id = codes "direct";
          version = registry_version;
          argv = executable_path f.relative_path ∷ [];
          runtime_error_code = codes "direct_runner_failed";
        }))
    else elim (spec_for runner_specs (suffix_of (last_of parts))) [
      | none ↦ some none
      | some spec ↦ some (
          some (record {
            id = spec.id;
            version = registry_version;
            argv = spec.program ∷ spec.arguments ++ executable_path f.relative_path ∷ [];
            runtime_error_code = spec.runtime_error_code;
          }))
    ]
