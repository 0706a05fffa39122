-- ===== src/RunSources/Clone/Words.antt =====
-- The words of the command of a clone, each one line (termroom/run_sources.py).
use termroom.Prelude.{
  Bool, true, ◌&&◌, not, List, [], ◌∷◌, ◌++◌, map, Text, codes, text_eq_iff, is_empty,
  if◌then◌else◌, ◌≡◌, inl, inr, refl, arith, Text-cases,
}
use termroom.Prelude.Result.{ok}
use termroom.Prelude.Split.{any, has, all_parts, any-append}
use termroom.Prelude.Posix.{is_control, as_posix}
use termroom.RunSources.Path.{require_metadata_line}
use termroom.RunSources.Remote.{validate_absolute_remote_path, validate_fixed_path}
use termroom.RunSources.Clone.{
  Variable, CloneRequest, insert_variable, sorted_items, assignment, clone_options, clone_env,
}
use termroom.ArchiveSafety.Manifest.{text_lt}

-- one line that is not empty
abbrev pub is_line : Text → Bool
is_line s = not (is_empty s) && not (any is_control s)

-- what `env` runs: it takes the words with `=` at the front as assignments
unfoldable pub command_of : List Text → List Text
command_of [] = []
command_of (w ∷ ws) = if has b'=' w then command_of ws else w ∷ ws

-- the texts of the request, each of one line and not empty
pub record AreLines (r : CloneRequest) : Type 0 where
  pub url_line : is_line r.url ≡ true
  pub git_line : is_line r.git_path ≡ true
  pub askpass_line : is_line r.askpass_path ≡ true
  pub home_line : is_line r.empty_home ≡ true
  pub destination_line : is_line r.destination ≡ true
  pub path_line : is_line r.fixed_path ≡ true

pub absolute-line :
    (value p : Text)
    → validate_absolute_remote_path value ≡ ok p
    → (p ≡ value) × (is_line value ≡ true)
unfolding validate_absolute_remote_path require_metadata_line
absolute-line value p h = ground (arith, text_eq_iff (as_posix value) value)

pub fixed-line :
    (value p : Text) → validate_fixed_path value ≡ ok p → (p ≡ value) × (is_line value ≡ true)
unfolding validate_fixed_path require_metadata_line
fixed-line value p h = ground arith

-- a variable whose assignment is one line
abbrev pub is_setting : Variable → Bool
is_setting v = not (any is_control v.key) && not (any is_control v.value)

unfoldable pub all_settings : List Variable → Bool
all_settings [] = true
all_settings (v ∷ vs) = is_setting v && all_settings vs

assignment-line : (v : Variable) → is_setting v ≡ true → is_line (assignment v) ≡ true
unfolding is_control any
assignment-line v h = elim (Text-cases v.key []) [
  | inl e ↦ ground (arith, e, h, any-append is_control v.key (b'=' ∷ v.value))
  | inr n ↦ ground (arith, n, h, any-append is_control v.key (b'=' ∷ v.value))
]

pub assignments-line :
    (vs : List Variable) (rest : List Text)
    → all_settings vs ≡ true
    → all_parts is_line rest ≡ true
    → all_parts is_line (map assignment vs ++ rest) ≡ true
unfolding all_settings all_parts
assignments-line [] rest h r = r
assignments-line (v ∷ vs) rest h r = ground (arith, assignments-line vs rest, assignment-line v)

has-assignment : (key value : Text) → has b'=' (key ++ b'=' ∷ value) ≡ true
unfolding has
has-assignment [] value = refl
has-assignment (c ∷ key) value = ground (arith, has-assignment key value)

pub command_of-assignments :
    (vs : List Variable) (rest : List Text)
    → command_of (map assignment vs ++ rest) ≡ command_of rest
unfolding command_of
command_of-assignments [] rest = refl
command_of-assignments (v ∷ vs) rest =
    ground (arith, has-assignment v.key v.value, command_of-assignments vs rest)

module _ (askpass home path : Text) where
  pub sorted-clone_env : sorted_items (clone_env askpass home path) ≡ clone_env askpass home path
  unfolding sorted_items insert_variable text_lt clone_env
  sorted-clone_env = refl

  pub settings-clone_env :
      is_line askpass ≡ true
      → is_line home ≡ true
      → is_line path ≡ true
      → all_settings (clone_env askpass home path) ≡ true
  unfolding all_settings clone_env any is_control
  settings-clone_env a h p = ground (arith, a, h, p, any-append is_control home (codes "/.config"))

pub option_line : is_line (codes "-i") ≡ true
unfolding any is_control
option_line = refl

pub options-line :
    (rest : List Text) → all_parts is_line (clone_options ++ rest) ≡ all_parts is_line rest
unfolding all_parts clone_options any is_control
options-line rest = refl
