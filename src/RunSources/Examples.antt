-- ===== src/RunSources/Examples.antt =====
-- A source path, two symbolic links and a clone of a public repository (termroom/run_sources.py).
use termroom.Prelude.{
  ◌+◌, ◌≤◌, ◌<◌, true, false, Option, none, some, List, [], ◌∷◌, ◌++◌, map, Text, codes, text_eq,
  contains, is_space, strip, length, ◌≡◌, ◌↔◌, inl, inr, refl, arith,
}
use termroom.Prelude.Result.{ok, err}
use termroom.Prelude.Split.{any, has, all_parts, split, join, starts_with}
use termroom.Prelude.Lists.{take, drop}
use termroom.Prelude.Posix.{
  is_control, is_surrogate, metadata, segments, root, as_posix, parent_stack,
}
use termroom.ArchiveSafety.Path.{is_letter, normalize_zip_member_path}
use termroom.ArchiveSafety.Path.{collect_parts}
use termroom.ArchiveSafety.Manifest.{text_lt}
use termroom.RunSources.Path.{
  source_symlink_outside, has_drive, normalize_source_relative_path, require_metadata_line,
}
use termroom.RunSources.Path.Strict.{zip_path_is_source_path}
use termroom.RunSources.Symlink.{step, walk, check_place, validate_contained_symlink_target}
use termroom.RunSources.Symlink.Depth.{ups, downs}
use termroom.RunSources.Symlink.Contained.{symlink-contained, symlink-escape}
use termroom.RunSources.GitUrl.{SplitUrl, filled, check_parsed, validate_public_https_git_url}
use termroom.RunSources.GitUrl.Public.{IsPublicUrl, validate_url_iff}
use termroom.RunSources.Remote.{validate_absolute_remote_path, validate_fixed_path}
use termroom.RunSources.Remote.Shape.{IsShown, IsRemotePath, validate_path_iff}
use termroom.RunSources.Clone.{
  GitCloneInvocation, CloneRequest, insert_variable, sorted_items, assignment, as_env_i_argv,
  clone_options, clone_env, build_public_git_clone_invocation,
}
use termroom.RunSources.Clone.Words.{is_line, command_of}
use termroom.RunSources.Clone.Command.{clone_command}

abbrev source_file : Text
source_file = codes "src/main.py"

source_file_ok : normalize_source_relative_path is_letter false false source_file ≡ ok source_file
unfolding normalize_source_relative_path has_drive is_letter is_control is_surrogate any has split
    starts_with all_parts contains text_eq
source_file_ok = refl

abbrev zip_name : Text
zip_name = codes "./src//main.py"

zip_name_ok : normalize_zip_member_path zip_name ≡ ok source_file
unfolding normalize_zip_member_path collect_parts is_control is_surrogate any has split join
    starts_with contains text_eq
zip_name_ok = unfold termroom.ArchiveSafety.Path.has_drive in refl

source_file_no_drive : has_drive is_letter source_file ≡ false
unfolding has_drive is_letter
source_file_no_drive = refl

zip_path_is_source_path_example :
    normalize_source_relative_path is_letter false false source_file ≡ ok source_file
zip_path_is_source_path_example =
    zip_path_is_source_path is_letter zip_name source_file zip_name_ok source_file_no_drive

abbrev link : Text
link = codes "src/lib/link"

abbrev target : Text
target = codes "../../data/./x"

abbrev escaping : Text
escaping = codes "../a/../../../b"

link_ok : normalize_source_relative_path is_letter false false link ≡ ok link
unfolding normalize_source_relative_path has_drive is_letter is_control is_surrogate any has split
    starts_with all_parts contains text_eq
link_ok = refl

target_ok : validate_contained_symlink_target is_letter link target ≡ ok target
unfolding validate_contained_symlink_target walk step check_place parent_stack segments
    normalize_source_relative_path has_drive is_letter is_control is_surrogate any has split join
    starts_with all_parts contains text_eq
target_ok = refl

walk_ok : walk (split b'/' target) (parent_stack link) ≡ ok (codes "x" ∷ codes "data" ∷ [])
unfolding walk step parent_stack segments split text_eq
walk_ok = refl

symlink-contained_example :
    (target ≡ target)
    × (ups (take 2 (split b'/' target))
        < length (split b'/' link) + downs (take 2 (split b'/' target)))
    × (contains (split b'/' target) metadata ≡ false)
symlink-contained_example = symlink-contained is_letter link target target 2 target_ok

abbrev location : List Text
location = codes "x" ∷ codes "data" ∷ []

escaping_clear : contains (split b'/' escaping) metadata ≡ false
unfolding contains split text_eq
escaping_clear = refl

climb_bound :
    length (split b'/' link) + downs (take 5 (split b'/' escaping))
    ≤ ups (take 5 (split b'/' escaping))
unfolding ups downs take split text_eq
climb_bound = omega arith

symlink-escape_example :
    validate_contained_symlink_target is_letter link escaping ≡ err source_symlink_outside
symlink-escape_example =
    symlink-escape is_letter link escaping link 5 link_ok escaping_clear climb_bound

abbrev clone_url : Text
clone_url = codes "https://example.org/team/tool.git"

abbrev parsed_url : SplitUrl
parsed_url = record {
  scheme = codes "https";
  netloc = codes "example.org";
  path = codes "/team/tool.git";
  hostname = some (codes "example.org");
  username = none;
  password = none;
}

abbrev urlsplit : Text → Option SplitUrl
urlsplit url = some parsed_url

abbrev same : Text → Text
same s = s

clone_url_ok : validate_public_https_git_url urlsplit same clone_url ≡ ok clone_url
unfolding validate_public_https_git_url check_parsed filled is_control is_space strip any has split
    all_parts text_eq
clone_url_ok = refl

validate_url_iff_example :
    (validate_public_https_git_url urlsplit same clone_url ≡ ok clone_url) ↔ (
      (clone_url ≡ clone_url)
      × ((parsed : SplitUrl) × (urlsplit clone_url ≡ some parsed)
          × IsPublicUrl same clone_url parsed))
validate_url_iff_example = validate_url_iff urlsplit same clone_url clone_url

abbrev git : Text
git = codes "/usr/bin/git"

git_ok : validate_absolute_remote_path git ≡ ok git
unfolding validate_absolute_remote_path require_metadata_line as_posix root segments split join
    starts_with all_parts any has text_eq is_control
git_ok = refl

-- the root directory, written with two slashes
abbrev two_slashes : Text
two_slashes = codes "//"

slash-IsShown : IsShown b'/'
slash-IsShown = record {
  beyond_ascii_controls = omega arith;
  no_latin_control = inl (omega arith);
  no_backslash = omega arith;
}

two_slashes-IsRemotePath : IsRemotePath two_slashes
unfolding join
two_slashes-IsRemotePath = record {
  start = two_slashes;
  names = [];
  whole = refl;
  named = tt;
  slashes = inr refl;
  shown = (slash-IsShown, (slash-IsShown, tt));
}

validate_path_iff_example :
    (validate_absolute_remote_path two_slashes ≡ ok two_slashes)
    ↔ ((two_slashes ≡ two_slashes) × IsRemotePath two_slashes)
validate_path_iff_example = validate_path_iff two_slashes two_slashes

two_slashes_ok : validate_absolute_remote_path two_slashes ≡ ok two_slashes
two_slashes_ok = (validate_path_iff two_slashes two_slashes).1 (refl, two_slashes-IsRemotePath)

abbrev request : CloneRequest
request = record {
  url = clone_url;
  git_path = git;
  askpass_path = codes "/bin/false";
  empty_home = codes "/run/home";
  destination = codes "/srv/tool";
  fixed_path = codes "/usr/bin:/bin";
}

abbrev invocation : GitCloneInvocation
invocation = record {
  argv = git ∷ clone_options ++ clone_url ∷ codes "/srv/tool" ∷ [];
  env = clone_env (codes "/bin/false") (codes "/run/home") (codes "/usr/bin:/bin");
}

build_ok : build_public_git_clone_invocation urlsplit same request ≡ ok invocation
unfolding build_public_git_clone_invocation validate_public_https_git_url check_parsed filled
    is_control is_space strip any has split all_parts text_eq validate_absolute_remote_path
    validate_fixed_path require_metadata_line as_posix root segments join starts_with
build_ok = refl

abbrev words : List Text
words = codes "/usr/bin/env" ∷ codes "-i" ∷ map assignment invocation.env ++ invocation.argv

words_ok : as_env_i_argv invocation (codes "/usr/bin/env") ≡ ok words
unfolding as_env_i_argv sorted_items insert_variable text_lt clone_env validate_absolute_remote_path
    require_metadata_line as_posix root segments split join starts_with all_parts any has text_eq
    is_control
words_ok = refl

git_plain : has b'=' git ≡ false
unfolding has
git_plain = refl

clone_command_example :
    (take 2 words ≡ codes "/usr/bin/env" ∷ codes "-i" ∷ [])
    × (command_of (drop 2 words) ≡ git ∷ clone_options ++ clone_url ∷ codes "/srv/tool" ∷ [])
    × (all_parts is_line words ≡ true)
unfolding clone_options
clone_command_example =
    clone_command urlsplit same request invocation (codes "/usr/bin/env") words build_ok words_ok
      git_plain
