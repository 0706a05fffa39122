-- ===== src/RunSources/Clone/Command.antt =====
-- The command that `build_public_git_clone_invocation` and `as_env_i_argv` give.
use termroom.Prelude.{
  true, false, Option, List, [], ◌∷◌, ◌++◌, map, Text, codes, ◌≡◌, inl, inr, sym, ap, arith,
  Option-cases, ◌∙◌,
}
use Prim.Native.String.{String}
use termroom.Prelude.Result.{Result, ok, bind-eq-ok, ok-inj}
use termroom.Prelude.Split.{has, all_parts}
use termroom.Prelude.Lists.{take, drop}
use termroom.RunSources.Path.{SourceCode}
use termroom.RunSources.GitUrl.{SplitUrl, validate_public_https_git_url}
use termroom.RunSources.Remote.{validate_absolute_remote_path, validate_fixed_path}
use termroom.RunSources.Clone.{
  Variable, GitCloneInvocation, CloneRequest, sorted_items, assignment, as_env_i_argv,
  clone_options, clone_env, build_public_git_clone_invocation,
}
use termroom.RunSources.Clone.Words.{
  sorted-clone_env, settings-clone_env, is_line, command_of, AreLines, absolute-line, fixed-line,
  assignments-line, command_of-assignments, option_line, options-line,
}

-- the settings of git, and the options of its `clone`, that a clone from the public network wants
abbrev pub git_settings : List String
git_settings =
    "-c" ∷ "credential.helper=" ∷ "-c" ∷ "credential.useHttpPath=false" ∷ "-c"
    ∷ "protocol.allow=never" ∷ "-c" ∷ "protocol.https.allow=always" ∷ "-c"
    ∷ "http.followRedirects=false" ∷ "-c" ∷ "http.extraHeader=" ∷ "-c" ∷ "http.cookieFile=" ∷ "-c"
    ∷ "submodule.recurse=false" ∷ []

abbrev pub git_options : List String
git_options =
    "clone" ∷ "--depth=1" ∷ "--single-branch" ∷ "--no-tags" ∷ "--no-recurse-submodules" ∷ []

module _ (urlsplit : Text → Option SplitUrl) (lower : Text → Text) where
  url-line :
      (value p : Text)
      → validate_public_https_git_url urlsplit lower value ≡ ok p
      → (p ≡ value) × (is_line value ≡ true)
  unfolding validate_public_https_git_url
  url-line value p h = elim (Option-cases (urlsplit value)) [
    | inl n ↦ ground (arith, n)
    | inr q ↦ ground (arith, q.1)
  ]

  built :
      (r : CloneRequest) (c : GitCloneInvocation)
      → build_public_git_clone_invocation urlsplit lower r ≡ ok c
      → AreLines r
        × (c.argv ≡ r.git_path ∷ clone_options ++ r.url ∷ r.destination ∷ [])
        × (c.env ≡ clone_env r.askpass_path r.empty_home r.fixed_path)
  unfolding build_public_git_clone_invocation
  built r c h =
      let b1 = bind-eq-ok (validate_public_https_git_url urlsplit lower r.url) _ h in
      let b2 = bind-eq-ok (validate_absolute_remote_path r.git_path) _ b1.2 in
      let b3 = bind-eq-ok (validate_absolute_remote_path r.askpass_path) _ b2.2 in
      let b4 = bind-eq-ok (validate_absolute_remote_path r.empty_home) _ b3.2 in
      let b5 = bind-eq-ok (validate_absolute_remote_path r.destination) _ b4.2 in
      let b6 = bind-eq-ok (validate_fixed_path r.fixed_path) _ b5.2 in
      let u = url-line r.url b1.0 b1.1 in
      let g = absolute-line r.git_path b2.0 b2.1 in
      let a = absolute-line r.askpass_path b3.0 b3.1 in
      let e = absolute-line r.empty_home b4.0 b4.1 in
      let d = absolute-line r.destination b5.0 b5.1 in
      let f = fixed-line r.fixed_path b6.0 b6.1 in
      (
        record {
          url_line = u.1;
          git_line = g.1;
          askpass_line = a.1;
          home_line = e.1;
          destination_line = d.1;
          path_line = f.1;
        },
        ground (arith, b6.2, u.0, g.0, d.0),
        ground (arith, b6.2, a.0, e.0, f.0),
      )

  words : CloneRequest → Text → List Text
  words r env_path =
      env_path ∷ codes "-i" ∷ map assignment (clone_env r.askpass_path r.empty_home r.fixed_path)
      ++ (r.git_path ∷ clone_options ++ r.url ∷ r.destination ∷ [])

  words-eq :
      (r : CloneRequest) (env_path p : Text) (c : GitCloneInvocation) (items : List Variable)
      (cmd : List Text)
      → ◌≡◌ {A = Result SourceCode (List Text)}
          (ok (p ∷ codes "-i" ∷ map assignment items ++ c.argv))
          (ok cmd)
      → p ≡ env_path
      → items ≡ clone_env r.askpass_path r.empty_home r.fixed_path
      → c.argv ≡ r.git_path ∷ clone_options ++ r.url ∷ r.destination ∷ []
      → cmd ≡ words r env_path
  unfolding words
  words-eq r env_path p c items cmd h e i a =
      sym (ok-inj {E = SourceCode} h)
      ∙ ap (λ q. q ∷ codes "-i" ∷ map assignment items ++ c.argv) e
      ∙ ap (λ vs. env_path ∷ codes "-i" ∷ map assignment vs ++ c.argv) i
      ∙ ap
          (λ ws.
            env_path
              ∷ codes "-i"
              ∷ map assignment (clone_env r.askpass_path r.empty_home r.fixed_path)
            ++ ws)
          a

  command-words :
      (r : CloneRequest) (c : GitCloneInvocation) (env_path : Text) (cmd : List Text)
      → build_public_git_clone_invocation urlsplit lower r ≡ ok c
      → as_env_i_argv c env_path ≡ ok cmd
      → (cmd ≡ words r env_path) × (is_line env_path ≡ true)
  unfolding as_env_i_argv words
  command-words r c env_path cmd h k =
      let b = built r c h in
      let e = bind-eq-ok (validate_absolute_remote_path env_path) _ k in
      let l = absolute-line env_path e.0 e.1 in
      let s = ap sorted_items b.2 ∙ sorted-clone_env r.askpass_path r.empty_home r.fixed_path in
      (words-eq r env_path e.0 c (sorted_items c.env) cmd e.2 l.0 s b.1, l.1)

  words-line :
      (r : CloneRequest) (env_path : Text)
      → AreLines r
      → is_line env_path ≡ true
      → all_parts is_line (words r env_path) ≡ true
  unfolding words all_parts
  words-line r env_path v e =
      let settings =
        settings-clone_env r.askpass_path r.empty_home r.fixed_path v.askpass_line v.home_line
          v.path_line in
      ground (
        arith,
        e,
        option_line,
        assignments-line (clone_env r.askpass_path r.empty_home r.fixed_path)
            (r.git_path ∷ clone_options ++ r.url ∷ r.destination ∷ []) settings
            (ground (arith, v, options-line (r.url ∷ r.destination ∷ []))),
      )

  words-command :
      (r : CloneRequest) (env_path : Text)
      → has b'=' r.git_path ≡ false
      → command_of (drop 2 (words r env_path))
        ≡ r.git_path ∷ clone_options ++ r.url ∷ r.destination ∷ []
  unfolding words drop command_of
  words-command r env_path g =
      command_of-assignments (clone_env r.askpass_path r.empty_home r.fixed_path)
        (r.git_path ∷ clone_options ++ r.url ∷ r.destination ∷ [])
      ∙ ground (arith, g)

  -- Where the path of git has no `=`, the command that `as_env_i_argv` gives for a built invocation
  -- starts with the executable of `env` and `-i`; `env`, which takes the words with `=` at the front as
  -- assignments, runs git with the settings `protocol.allow=never`, `protocol.https.allow=always` and
  -- `http.followRedirects=false` among others, with the options of a shallow clone without tags and
  -- submodules, and with the URL and the destination behind `--`; and every word of the command is one
  -- line that is not empty.
  pub clone_command :
      (r : CloneRequest) (c : GitCloneInvocation) (env_path : Text) (cmd : List Text)
      → build_public_git_clone_invocation urlsplit lower r ≡ ok c
      → as_env_i_argv c env_path ≡ ok cmd
      → has b'=' r.git_path ≡ false
      → (take 2 cmd ≡ env_path ∷ codes "-i" ∷ [])
        × (command_of (drop 2 cmd)
            ≡ r.git_path ∷ map codes git_settings
              ++ map codes git_options
              ++ codes "--" ∷ r.url ∷ r.destination ∷ [])
        × (all_parts is_line cmd ≡ true)
  unfolding take words clone_options
  clone_command r c env_path cmd h k g =
      let w = command-words r c env_path cmd h k in
      let b = built r c h in
      (
        ap (take 2) w.0,
        ap (λ m. command_of (drop 2 m)) w.0 ∙ words-command r env_path g,
        ap (all_parts is_line) w.0 ∙ words-line r env_path b.0 w.1,
      )
