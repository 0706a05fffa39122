-- ===== src/RunSources/Workspace/Built.antt =====
-- The manifest that `build_workspace_manifest` of termroom/run_sources.py gives.
use termroom.Prelude.{
  ℕ, suc, ◌+◌, Bool, true, false, ◌&&◌, not, List, [], ◌∷◌, ◌++◌, Text, append_assoc, if◌then◌else◌,
  ◌≡◌, inl, inr, refl, sym, ap, subst, arith, Bool-cases, ◌∙◌,
}
use termroom.Prelude.Result.{ok, bind-eq-ok, ok-inj}
use termroom.Prelude.Integers.{ℤ, pos, negsuc, ◌+ℤ◌, is_negative}
use termroom.RunSources.Path.{SourceCode}
use termroom.RunSources.Workspace.Listed.{IsListed, tested-All}
use termroom.Prelude.Lists.{All, All-mono}
use termroom.Prelude.Split.{starts_with, starts_with-append}
use termroom.ArchiveSafety.Conflict.{below}
use termroom.RunSources.Workspace.{
  WorkspaceEntryKind, file, directory, symlink, other, key_lt, WorkspaceEntry, WorkspaceManifest,
  is_file, is_directory, collect_entries, has_below, check_conflicts, insert_entry, ordered,
  collect_prefixes, total_bytes, build_workspace_manifest,
}
use termroom.RunSources.Workspace.Canonical.{
  AllTested, none_yet, AllTested-collect, AllTested-ordered,
}

-- if an entry is below another one, that is a directory
pub record IsFlat (e f : WorkspaceEntry) : Type 0 where
  pub parent : (s : Text) → f.relative_path ≡ e.relative_path ++ b'/' ∷ s → e.kind ≡ directory

directory-eq : (k : WorkspaceEntryKind) → is_directory k ≡ true → k ≡ directory
directory-eq directory h = refl
directory-eq file h = cc
directory-eq symlink h = cc
directory-eq (other t) h = cc

below-starts : (path s : Text) → starts_with (path ++ b'/' ∷ s) (path ++ b'/' ∷ []) ≡ true
below-starts path s =
    ap (λ q. starts_with q (path ++ b'/' ∷ [])) (sym (append_assoc path (b'/' ∷ []) s))
    ∙ starts_with-append (path ++ b'/' ∷ []) s

below-All :
    (e : WorkspaceEntry) (all : List WorkspaceEntry)
    → (not (is_directory e.kind) && has_below all e.relative_path) ≡ false
    → All (IsFlat e) all
unfolding has_below
below-All e [] h = tt
below-All e (f ∷ all) h = (
  record {
    parent = (λ s q.
        let b =
          ap (λ p. starts_with p (below e.relative_path)) q ∙ below-starts e.relative_path s in
        directory-eq e.kind (ground (arith, h, b)));
  },
  below-All e all (ground (arith, h)),
)

check-All :
    (all es : List WorkspaceEntry)
    → check_conflicts all es ≡ ok tt
    → All (λ e. All (IsFlat e) all) es
unfolding check_conflicts
check-All all [] h = tt
check-All all (e ∷ es) h =
    (below-All e all (ground (arith, h)), check-All all es (ground (arith, h)))

module _ (P : WorkspaceEntry → Type 0) where
  All-insert :
      (e : WorkspaceEntry) (es : List WorkspaceEntry) → P e → All P es → All P (insert_entry e es)
  unfolding insert_entry
  All-insert e [] p a = (p, tt)
  All-insert e (x ∷ xs) p a =
      let later = All-insert e xs p a.1 in
      elim (Bool-cases (key_lt x e)) [ inl l ↦ rw l (a.0, later) | inr n ↦ rw n (p, (a.0, a.1)) ]

  All-ordered : (es : List WorkspaceEntry) → All P es → All P (ordered es)
  unfolding ordered
  All-ordered [] a = a
  All-ordered (e ∷ es) a = All-insert e (ordered es) a.0 (All-ordered es a.1)

abbrev pub magnitude : ℤ → ℕ
magnitude (pos n) = n
magnitude (negsuc n) = suc n

-- the bytes of the files, as a natural number
unfoldable pub file_bytes : List WorkspaceEntry → ℕ
file_bytes [] = 0
file_bytes (e ∷ es) = (if is_file e.kind then magnitude e.size else 0) + file_bytes es

natural_sum : (n : ℤ) (m : ℕ) → is_negative n ≡ false → n +ℤ pos m ≡ pos (magnitude n + m)
unfolding ◌+ℤ◌
natural_sum (pos n) m h = refl
natural_sum (negsuc n) m h = cc

total-file_bytes :
    (is_alpha : ℕ → Bool) (es : List WorkspaceEntry)
    → AllTested is_alpha es
    → total_bytes es ≡ pos (file_bytes es)
unfolding total_bytes file_bytes AllTested
total-file_bytes is_alpha [] a = refl
total-file_bytes is_alpha (e ∷ es) a =
    let i = total-file_bytes is_alpha es a.1 in
    let n = a.0.natural in
    elim (Bool-cases (is_file e.kind)) [
      | inl y ↦ ground (arith, y, i, natural_sum e.size (file_bytes es) (ground (arith, n)))
      | inr d ↦ ground (arith, d, i)
    ]

-- A manifest that is built lists strict relative paths only, of files, directories and symbolic links,
-- with sizes and times that are natural numbers; only a file has a size other than 0, an executable bit
-- or a digest, and a digest is 64 hexadecimal digits in lower case; a symbolic link, and no other
-- entry, has a target, which stays in the Source. Where one entry is below another, that is a
-- directory. The total is the sum of the sizes of the files.
pub build-IsListed :
    (is_alpha : ℕ → Bool) (casefold : Text → Text) (entries : List WorkspaceEntry)
    (excluded_prefixes : List Text) (m : WorkspaceManifest)
    → build_workspace_manifest is_alpha casefold entries excluded_prefixes ≡ ok m
    → All IsListed m.entries
      × All (λ e. All (IsFlat e) m.entries) m.entries
      × (m.total_bytes ≡ pos (file_bytes m.entries))
unfolding build_workspace_manifest
build-IsListed is_alpha casefold entries excluded_prefixes m h =
    let b = bind-eq-ok (collect_entries is_alpha casefold [] entries) _ h in
    let k = bind-eq-ok (check_conflicts b.0 b.0) _ b.2 in
    let p = bind-eq-ok (collect_prefixes is_alpha excluded_prefixes) _ k.2 in
    let e = ok-inj {E = SourceCode} p.2 in
    let a =
      AllTested-ordered is_alpha b.0
        (AllTested-collect is_alpha casefold [] entries b.0 (none_yet is_alpha) b.1) in
    let f =
      All-ordered (λ x. All (IsFlat x) (ordered b.0)) b.0
        (All-mono (λ x. All (IsFlat x) b.0) (λ x. All (IsFlat x) (ordered b.0)) b.0
          (λ x. All-ordered (IsFlat x) b.0) (check-All b.0 b.0 k.1)) in
    subst
      (λ q.
        All IsListed q.entries
        × All (λ x. All (IsFlat x) q.entries) q.entries
        × (q.total_bytes ≡ pos (file_bytes q.entries)))
      e (tested-All is_alpha (ordered b.0) a, f, total-file_bytes is_alpha (ordered b.0) a)
