-- ===== src/RunSources/Workspace/Canonical.antt =====
-- What `build_workspace_manifest` of termroom/run_sources.py lets into a manifest.
use termroom.Prelude.{
  ℕ, Bool, true, false, ◌&&◌, ◌||◌, not, none, some, List, [], ◌∷◌, Text, is_some, if◌then◌else◌,
  ◌≡◌, ◌⊎◌, inl, inr, refl, sym, ap, subst, arith, Bool-cases, Option-cases, ◌∙◌,
}
use termroom.Prelude.Result.{ok, bind-eq-ok, ok-inj, Result-cases}
use termroom.Prelude.Integers.{pos, is_negative}
use termroom.ArchiveSafety.Path.Normal.{IsSafe}
use termroom.RunSources.Path.{SourceCode, normalize_source_relative_path}
use termroom.RunSources.Path.Strict.{normalize_source-IsSafe}
use termroom.RunSources.Symlink.{validate_contained_symlink_target}
use termroom.RunSources.Symlink.Contained.{symlink-contained}
use termroom.RunSources.Workspace.{
  WorkspaceEntry, is_file, is_symlink, is_other, is_bad_digest, check_target, folded,
  canonical_entry, collect_entries, key_lt, insert_entry, ordered,
}

-- the tests that an entry of the manifest has passed
pub record IsTested (is_alpha : ℕ → Bool) (e : WorkspaceEntry) : Type 0 where
  pub strict : IsSafe e.relative_path
  pub known : is_other e.kind ≡ false
  pub natural : (is_negative e.size || is_negative e.mtime_ns) ≡ false
  pub plain : (is_file e.kind || (not e.executable && not (is_some e.digest))) ≡ true
  pub sized : (is_file e.kind ≡ true) ⊎ (e.size ≡ pos 0)
  pub digested : is_bad_digest e.digest ≡ false
  pub linked : (is_symlink e.kind || not (is_some e.link_target)) ≡ true
  pub contained :
      (is_symlink e.kind ≡ false)
      ⊎ ((target : Text) × (e.link_target ≡ some target)
          × (validate_contained_symlink_target is_alpha e.relative_path target ≡ ok target))

unfoldable pub AllTested : (ℕ → Bool) → List WorkspaceEntry → Type 0
AllTested is_alpha [] = Unit {0}
AllTested is_alpha (e ∷ es) = IsTested is_alpha e × AllTested is_alpha es

target_ok :
    (is_alpha : ℕ → Bool) (path target t : Text)
    → validate_contained_symlink_target is_alpha path target ≡ ok t
    → validate_contained_symlink_target is_alpha path target ≡ ok target
target_ok is_alpha path target t h =
    h ∙ ap (λ q. ok q) (symlink-contained is_alpha path target t 0 h).0

check_target-link :
    (is_alpha : ℕ → Bool) (e : WorkspaceEntry) (path target : Text)
    → is_symlink e.kind ≡ true
    → e.link_target ≡ some target
    → check_target is_alpha e path ≡ validate_contained_symlink_target is_alpha path target
unfolding check_target
check_target-link is_alpha e path target y l = rw (y, l) refl

-- the target of a link is kept
checked-target :
    (is_alpha : ℕ → Bool) (e : WorkspaceEntry) (path t : Text)
    → check_target is_alpha e path ≡ ok t
    → ((is_symlink e.kind || not (is_some e.link_target)) ≡ true)
      × ((is_symlink e.kind ≡ false)
          ⊎ ((target : Text) × (e.link_target ≡ some target)
              × (validate_contained_symlink_target is_alpha path target ≡ ok target)))
unfolding check_target
checked-target is_alpha e path t h = elim (Bool-cases (is_symlink e.kind)) [
  | inr n ↦ (ground (arith, n, h), inl n)
  | inl y ↦ elim (Option-cases e.link_target) [
    | inl n ↦ ground (arith, y, n, h)
    | inr l ↦ (
      ground (arith, y),
      inr (
        l.0,
        l.1,
        target_ok is_alpha path l.0 t (sym (check_target-link is_alpha e path l.0 y l.1) ∙ h),
      ),
    )
  ]
]

-- an entry as the first loop stores it
abbrev stored : (Text → Text) → WorkspaceEntry → Text → WorkspaceEntry
stored casefold e path = record e {
  relative_path = path;
  size = if is_file e.kind then e.size else pos 0;
  executable = if is_file e.kind then e.executable else false;
  digest = if is_file e.kind then folded casefold e.digest else none;
}

module _ (is_alpha : ℕ → Bool) (casefold : Text → Text) (by_path : List WorkspaceEntry)
    (e c : WorkspaceEntry) (h : canonical_entry is_alpha casefold by_path e ≡ ok c) where
  inversion :
      (path : Text) × (normalize_source_relative_path is_alpha false false e.relative_path
        ≡ ok path)
      × ((t : Text) × (check_target is_alpha e path ≡ ok t))
  unfolding canonical_entry
  inversion =
      elim (Result-cases (normalize_source_relative_path is_alpha false false e.relative_path)) [
        | inr f ↦ ground (arith, h, f.1)
        | inl p ↦ elim (Result-cases (check_target is_alpha e p.0)) [
          | inr f ↦ ground (arith, h, p.1, f.1)
          | inl t ↦ (p.0, p.1, t)
        ]
      ]

  module _ (path t : Text)
      (n : normalize_source_relative_path is_alpha false false e.relative_path ≡ ok path)
      (k : check_target is_alpha e path ≡ ok t) where
    shape :
        (c ≡ stored casefold e path)
        × (is_other e.kind ≡ false)
        × ((is_negative e.size || is_negative e.mtime_ns) ≡ false)
        × ((is_some (folded casefold e.digest)
              && (not (is_file e.kind) || is_bad_digest (folded casefold e.digest)))
            ≡ false)
    unfolding canonical_entry
    shape = ground (arith, h, n, k)

    stored-IsTested : IsTested is_alpha (stored casefold e path)
    stored-IsTested =
        let s = normalize_source-IsSafe is_alpha e.relative_path path n in
        let l = checked-target is_alpha e path t k in
        record {
          strict = subst IsSafe (sym s.0) s.1;
          known = shape.1;
          natural = ground (arith, shape.2);
          plain = ground arith;
          sized = ground arith;
          digested = ground (arith, shape.3);
          linked = l.0;
          contained = l.1;
        }

  entry-IsTested : IsTested is_alpha c
  entry-IsTested =
      let i = inversion in
      let t = i.2 in
      subst (IsTested is_alpha) (sym (shape i.0 t.0 i.1 t.1).0) (stored-IsTested i.0 t.0 i.1 t.1)

pub none_yet : (is_alpha : ℕ → Bool) → AllTested is_alpha []
unfolding AllTested
none_yet is_alpha = tt

pub AllTested-collect :
    (is_alpha : ℕ → Bool) (casefold : Text → Text) (by_path rest es : List WorkspaceEntry)
    → AllTested is_alpha by_path
    → collect_entries is_alpha casefold by_path rest ≡ ok es
    → AllTested is_alpha es
unfolding collect_entries AllTested
AllTested-collect is_alpha casefold by_path [] es a h =
    subst (AllTested is_alpha) (ok-inj {E = SourceCode} h) a
AllTested-collect is_alpha casefold by_path (e ∷ rest) es a h =
    let b = bind-eq-ok (canonical_entry is_alpha casefold by_path e) _ h in
    AllTested-collect is_alpha casefold (b.0 ∷ by_path) rest es
      (entry-IsTested is_alpha casefold by_path e b.0 b.1, a) b.2

AllTested-insert :
    (is_alpha : ℕ → Bool) (e : WorkspaceEntry) (es : List WorkspaceEntry)
    → IsTested is_alpha e
    → AllTested is_alpha es
    → AllTested is_alpha (insert_entry e es)
unfolding insert_entry AllTested
AllTested-insert is_alpha e [] c a = (c, tt)
AllTested-insert is_alpha e (x ∷ xs) c a =
    let later = AllTested-insert is_alpha e xs c a.1 in
    elim (Bool-cases (key_lt x e)) [ inl l ↦ rw l (a.0, later) | inr n ↦ rw n (c, (a.0, a.1)) ]

pub AllTested-ordered :
    (is_alpha : ℕ → Bool) (es : List WorkspaceEntry)
    → AllTested is_alpha es
    → AllTested is_alpha (ordered es)
unfolding ordered AllTested
AllTested-ordered is_alpha [] a = a
AllTested-ordered is_alpha (e ∷ es) a =
    AllTested-insert is_alpha e (ordered es) a.0 (AllTested-ordered is_alpha es a.1)
