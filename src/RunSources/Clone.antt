-- ===== src/RunSources/Clone.antt =====
-- `GitCloneInvocation` and `build_public_git_clone_invocation` of termroom/run_sources.py.
pub mod Words
pub mod Command
use termroom.Prelude.{
  ◌+◌, ◌-◌, ◌/◌, false, Option, List, [], ◌∷◌, ◌++◌, map, Text, codes, if◌then◌else◌,
}
use termroom.Prelude.Result.{Result, ok, ◌>>=◌, ◌>>◌}
use termroom.ArchiveSafety.Manifest.{text_lt}
use termroom.RunSources.Path.{SourceCode}
use termroom.RunSources.GitUrl.{SplitUrl, validate_public_https_git_url}
use termroom.RunSources.Remote.{validate_absolute_remote_path, validate_fixed_path}

-- an item of a mapping from names to values
pub record Variable : Type 0 where
  pub key : Text
  pub value : Text

pub record GitCloneInvocation : Type 0 where
  pub argv : List Text
  pub env : List Variable

-- `<` on items of a mapping, whose keys are distinct
unfoldable pub insert_variable : Variable → List Variable → List Variable
unfolding text_lt
insert_variable v [] = v ∷ []
insert_variable v (w ∷ ws) =
    let later = insert_variable v ws in if text_lt w.key v.key then w ∷ later else v ∷ w ∷ ws

-- `sorted(self.env.items())`
unfoldable pub sorted_items : List Variable → List Variable
unfolding insert_variable
sorted_items [] = []
sorted_items (v ∷ vs) = insert_variable v (sorted_items vs)

-- `f"{key}={value}"`
abbrev pub assignment : Variable → Text
assignment v = v.key ++ b'=' ∷ v.value

unfoldable pub as_env_i_argv : GitCloneInvocation → Text → Result SourceCode (List Text)
unfolding sorted_items validate_absolute_remote_path
as_env_i_argv invocation env_path = do
  safe_env_path ← validate_absolute_remote_path env_path
  ok (safe_env_path ∷ codes "-i" ∷ map assignment (sorted_items invocation.env) ++ invocation.argv)

-- what stands between the executable and the URL
unfoldable pub clone_options : List Text
clone_options =
    codes "-c"
    ∷ codes "credential.helper="
    ∷ codes "-c"
    ∷ codes "credential.useHttpPath=false"
    ∷ codes "-c"
    ∷ codes "protocol.allow=never"
    ∷ codes "-c"
    ∷ codes "protocol.https.allow=always"
    ∷ codes "-c"
    ∷ codes "http.followRedirects=false"
    ∷ codes "-c"
    ∷ codes "http.extraHeader="
    ∷ codes "-c"
    ∷ codes "http.cookieFile="
    ∷ codes "-c"
    ∷ codes "submodule.recurse=false"
    ∷ codes "clone"
    ∷ codes "--depth=1"
    ∷ codes "--single-branch"
    ∷ codes "--no-tags"
    ∷ codes "--no-recurse-submodules"
    ∷ codes "--"
    ∷ []

abbrev pub variable : Text → Text → Variable
variable key value = record { key = key; value = value }

unfoldable pub clone_env : (askpass home path : Text) → List Variable
clone_env askpass home path =
    variable (codes "GIT_ASKPASS") askpass
    ∷ variable (codes "GIT_CONFIG_GLOBAL") (codes "/dev/null")
    ∷ variable (codes "GIT_CONFIG_NOSYSTEM") (codes "1")
    ∷ variable (codes "GIT_CONFIG_SYSTEM") (codes "/dev/null")
    ∷ variable (codes "GIT_LFS_SKIP_SMUDGE") (codes "1")
    ∷ variable (codes "GIT_TERMINAL_PROMPT") (codes "0")
    ∷ variable (codes "HOME") home
    ∷ variable (codes "LC_ALL") (codes "C")
    ∷ variable (codes "PATH") path
    ∷ variable (codes "SSH_ASKPASS") askpass
    ∷ variable (codes "XDG_CONFIG_HOME") (home ++ codes "/.config")
    ∷ []

-- the keyword arguments
pub record CloneRequest : Type 0 where
  pub url : Text
  pub git_path : Text
  pub askpass_path : Text
  pub empty_home : Text
  pub destination : Text
  pub fixed_path : Text

unfoldable pub build_public_git_clone_invocation :
    (urlsplit : Text → Option SplitUrl) (lower : Text → Text)
    → CloneRequest
    → Result SourceCode GitCloneInvocation
unfolding validate_public_https_git_url validate_absolute_remote_path validate_fixed_path
build_public_git_clone_invocation urlsplit lower r = do
  safe_url ← validate_public_https_git_url urlsplit lower r.url
  safe_git ← validate_absolute_remote_path r.git_path
  safe_askpass ← validate_absolute_remote_path r.askpass_path
  safe_home ← validate_absolute_remote_path r.empty_home
  safe_destination ← validate_absolute_remote_path r.destination
  safe_path ← validate_fixed_path r.fixed_path
  ok (record {
    argv = safe_git ∷ clone_options ++ safe_url ∷ safe_destination ∷ [];
    env = clone_env safe_askpass safe_home safe_path;
  })
