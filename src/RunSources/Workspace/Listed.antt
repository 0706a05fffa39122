-- ===== src/RunSources/Workspace/Listed.antt =====
-- What is known of an entry of a Workspace manifest (termroom/run_sources.py).
use termroom.Prelude.{
  ℕ, ◌+◌, ◌≤◌, ◌<◌, Bool, true, false, not, Option, none, some, List, [], ◌∷◌, Text, contains,
  length, is_some, ◌≡◌, ◌≢◌, ◌⊎◌, inl, inr, refl, sym, ap, arith, Bool-cases, ◌∙◌,
}
use termroom.Prelude.Result.{ok}
use termroom.Prelude.Lists.{take, All}
use termroom.Prelude.Split.{any, split}
use termroom.Prelude.Integers.{ℤ, pos, negsuc, is_negative}
use termroom.ArchiveSafety.Path.Normal.{IsSafe}
use termroom.Prelude.Posix.{metadata}
use termroom.RunSources.Symlink.Depth.{ups, downs}
use termroom.RunSources.Symlink.{validate_contained_symlink_target}
use termroom.RunSources.Symlink.Contained.{symlink-contained}
use termroom.RunSources.Workspace.{
  WorkspaceEntryKind, file, directory, symlink, other, WorkspaceEntry, is_file, is_symlink,
  is_other, is_hex, is_bad_digest,
}
use termroom.RunSources.Workspace.Canonical.{IsTested, AllTested}

-- a digit of a SHA-256 in lower case
abbrev pub IsHexDigit : ℕ → Type 0
IsHexDigit c = ((48 ≤ c) × (c ≤ 57)) ⊎ ((97 ≤ c) × (c ≤ 102))

-- a link at the path to the target stays in the Source: along every first part of the target, the parts
-- that go up are fewer than the parts of the path and the names met before, and no part is the
-- metadata directory
pub record StaysInside (path target : Text) : Type 0 where
  pub depth :
      (n : ℕ)
      → ups (take n (split b'/' target))
        < length (split b'/' path) + downs (take n (split b'/' target))
  pub no_metadata : contains (split b'/' target) metadata ≡ false

pub record IsListed (e : WorkspaceEntry) : Type 0 where
  pub strict : IsSafe e.relative_path
  pub known : (e.kind ≡ file) ⊎ ((e.kind ≡ directory) ⊎ (e.kind ≡ symlink))
  pub size_natural : (n : ℕ) × (e.size ≡ pos n)
  pub time_natural : (n : ℕ) × (e.mtime_ns ≡ pos n)
  pub plain : (e.kind ≡ file) ⊎ ((e.size ≡ pos 0) × (e.executable ≡ false) × (e.digest ≡ none))
  pub digested : (d : Text) → e.digest ≡ some d → (length d ≡ 64) × All IsHexDigit d
  pub linked :
      ((e.kind ≢ symlink) × (e.link_target ≡ none))
      ⊎ ((e.kind ≡ symlink)
          × ((target : Text) × (e.link_target ≡ some target) × StaysInside e.relative_path target))

hex-All : (d : Text) → any (λ c. not (is_hex c)) d ≡ false → All IsHexDigit d
unfolding any
hex-All [] h = tt
hex-All (c ∷ d) h = (ground (arith, h), hex-All d (ground (arith, h)))

digest-cases :
    (x : Option Text) (d : Text)
    → is_bad_digest x ≡ false
    → x ≡ some d
    → (length d ≡ 64) × All IsHexDigit d
digest-cases x d h e =
    let b : is_bad_digest (some d) ≡ false = ap is_bad_digest (sym e) ∙ h in
    (ground (arith, b), hex-All d (ground (arith, b)))

kind-cases :
    (k : WorkspaceEntryKind) → is_other k ≡ false → (k ≡ file) ⊎ ((k ≡ directory) ⊎ (k ≡ symlink))
kind-cases file h = inl refl
kind-cases directory h = inr (inl refl)
kind-cases symlink h = inr (inr refl)
kind-cases (other t) h = cc

file-eq : (k : WorkspaceEntryKind) → is_file k ≡ true → k ≡ file
file-eq file h = refl
file-eq directory h = cc
file-eq symlink h = cc
file-eq (other t) h = cc

symlink-eq : (k : WorkspaceEntryKind) → is_symlink k ≡ true → k ≡ symlink
symlink-eq file h = cc
symlink-eq directory h = cc
symlink-eq symlink h = refl
symlink-eq (other t) h = cc

natural : (z : ℤ) → is_negative z ≡ false → (n : ℕ) × (z ≡ pos n)
natural (pos n) h = (n, refl)
natural (negsuc n) h = cc

none_of : (x : Option Text) → is_some x ≡ false → x ≡ none
none_of none h = refl
none_of (some t) h = cc

contained-StaysInside :
    (is_alpha : ℕ → Bool) (path target : Text)
    → validate_contained_symlink_target is_alpha path target ≡ ok target
    → StaysInside path target
contained-StaysInside is_alpha path target h = record {
  depth = (λ n. (symlink-contained is_alpha path target target n h).1);
  no_metadata = (symlink-contained is_alpha path target target 0 h).2;
}

module _ (is_alpha : ℕ → Bool) (e : WorkspaceEntry) (t : IsTested is_alpha e) where
  tested-plain : (e.kind ≡ file) ⊎ ((e.size ≡ pos 0) × (e.executable ≡ false) × (e.digest ≡ none))
  tested-plain = elim (Bool-cases (is_file e.kind)) [
    | inl y ↦ inl (file-eq e.kind y)
    | inr n ↦
        let p = t.plain in
        let s = t.sized in
        inr (ground (arith, n, s), ground (arith, n, p), none_of e.digest (ground (arith, n, p)))
  ]

  tested-linked :
      ((e.kind ≢ symlink) × (e.link_target ≡ none))
      ⊎ ((e.kind ≡ symlink)
          × ((target : Text) × (e.link_target ≡ some target) × StaysInside e.relative_path target))
  tested-linked = elim t.contained [
    | inl n ↦
        let l = t.linked in
        inl
          ((λ q. ground (arith, n, ap is_symlink q)), none_of e.link_target (ground (arith, n, l)))
    | inr c ↦ elim (Bool-cases (is_symlink e.kind)) [
      | inl y ↦
          inr (
            symlink-eq e.kind y,
            (c.0, c.1, contained-StaysInside is_alpha e.relative_path c.0 c.2),
          )
      | inr n ↦
          let l = t.linked in
          inl (
            (λ q. ground (arith, n, ap is_symlink q)),
            none_of e.link_target (ground (arith, n, l)),
          )
    ]
  ]

  tested-IsListed : IsListed e
  tested-IsListed =
      let n = t.natural in
      record {
        strict = t.strict;
        known = kind-cases e.kind t.known;
        size_natural = natural e.size (ground (arith, n));
        time_natural = natural e.mtime_ns (ground (arith, n));
        plain = tested-plain;
        digested = (λ d. digest-cases e.digest d t.digested);
        linked = tested-linked;
      }

pub tested-All :
    (is_alpha : ℕ → Bool) (es : List WorkspaceEntry) → AllTested is_alpha es → All IsListed es
unfolding AllTested
tested-All is_alpha [] a = tt
tested-All is_alpha (e ∷ es) a = (tested-IsListed is_alpha e a.0, tested-All is_alpha es a.1)
