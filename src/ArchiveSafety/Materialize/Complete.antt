-- ===== src/ArchiveSafety/Materialize/Complete.antt =====
-- A validated ZIP is materialized to its end.
use termroom.Prelude.{
  ℕ, ◌+◌, ◌≤◌, Bool, true, false, Option, none, some, List, [], ◌∷◌, ◌++◌, map, Text, text_eq_refl,
  text_eq_iff, if◌then◌else◌, ◌≡◌, inl, inr, refl, sym, subst, arith, Bool-cases,
}
use termroom.Prelude.Result.{ok}
use termroom.ArchiveSafety.Entry.{ArchiveLimits, ZipInfo, ZipEntry, is_directory, entry_from_info}
use termroom.ArchiveSafety.Entry.Facts.{entry_inversion}
use termroom.ArchiveSafety.Conflict.Separate.{separate, all_separate, pairwise_separate}
use termroom.ArchiveSafety.Structure.{validate_structure}
use termroom.ArchiveSafety.Structure.Sound.{
  AllFit, Made, Pairs, entries_of, total_size, validate_structure-IsSound,
}
use termroom.ArchiveSafety.Manifest.{ZipManifest, key_lt, insert_entry, sorted_entries}
use termroom.ArchiveSafety.Manifest.Accepts.{extractable}
use termroom.ArchiveSafety.Inflate.{Reading, Archive, validate_zip_archive}
use termroom.ArchiveSafety.Inflate.Exact.{
  IsExact, AllExact, inflate-AllExact, exact-iter, validated, validate_zip_archive-IsSound,
  validated-accepted,
}
use termroom.ArchiveSafety.Materialize.{
  SinkCall, make_directory, write_file, find_info, entry_eq, entries_eq, required_directories,
  write_entries, check_unchanged, write_files, materialize_zip_archive,
}

-- the files of a list of entries, as the sink is to write them
unfoldable pub file_calls : List ZipEntry → List SinkCall
file_calls [] = []
file_calls (e ∷ es) =
    let later = file_calls es in
    if is_directory e.kind then later else write_file e.relative_path e.size e.executable ∷ later

entry_eq_refl : (e : ZipEntry) → entry_eq e e ≡ true
unfolding entry_eq
entry_eq_refl e = ground (arith, text_eq_refl e.relative_path, text_eq_refl e.archive_name)

entries_eq_refl : (es : List ZipEntry) → entries_eq es es ≡ true
unfolding entries_eq
entries_eq_refl [] = refl
entries_eq_refl (e ∷ es) = ground (arith, entry_eq_refl e, entries_eq_refl es)

-- two entries made of records with one name have one path
same_name :
    (limits : ArchiveLimits) (info other : ZipInfo) (e x : ZipEntry)
    → entry_from_info info limits ≡ ok e
    → entry_from_info other limits ≡ ok x
    → e.archive_name ≡ x.archive_name
    → e.relative_path ≡ x.relative_path
same_name limits info other e x h k n =
    let a = entry_inversion info limits e h in
    let b = entry_inversion other limits x k in ground (arith, a.1, a.2, b.1, b.2)

no_second :
    (limits : ArchiveLimits) (info : ZipInfo) (e : ZipEntry) (ps : Pairs)
    → entry_from_info info limits ≡ ok e
    → Made limits ps
    → all_separate e (entries_of ps) ≡ true
    → find_info e.archive_name ps ≡ none
unfolding find_info entries_of all_separate separate
no_second limits info e [] h m w = refl
no_second limits info e ((other, x) ∷ ps) h m w = ground (
  arith,
  no_second limits info e ps h m.1,
  text_eq_iff x.archive_name e.archive_name,
  text_eq_iff e.relative_path x.relative_path,
  same_name limits info other e x h m.0,
)

module _ (crc32 : List ℕ → ℕ → ℕ) where
  -- each file is found by its name, and its data is exact
  abbrev pub IsFound : (ZipInfo → Reading) → Pairs → ZipEntry → Type 0
  IsFound read pairs e =
      is_directory e.kind ≡ false
      → (info : ZipInfo) × (find_info e.archive_name pairs ≡ some info)
        × IsExact crc32 (read info) e

  abbrev pub AllFound : (ZipInfo → Reading) → Pairs → List ZipEntry → Type 0
  AllFound read pairs [] = Unit {0}
  AllFound read pairs (e ∷ es) = IsFound read pairs e × AllFound read pairs es

  write_entries_complete :
      (archive : Archive) (limits : ArchiveLimits) (pairs : Pairs) (total : ℕ) (es : List ZipEntry)
      → AllFit limits es
      → AllFound archive.read pairs es
      → total + total_size es ≤ limits.max_total_bytes
      → write_entries crc32 archive limits pairs total es ≡ some (file_calls es, ok tt)
  unfolding write_entries file_calls total_size
  write_entries_complete archive limits pairs total [] f found c = refl
  write_entries_complete archive limits pairs total (e ∷ es) f found c =
      elim (Bool-cases (is_directory e.kind)) [
        | inl d ↦
            rw d (write_entries_complete archive limits pairs total es f.1 found.1 (omega arith))
        | inr d ↦
            let (info, named, exact) = found.0 d in
            let read =
              exact-iter crc32 (archive.read info) e limits total exact f.0.size_capped
                (omega arith) in
            let later =
              write_entries_complete archive limits pairs (total + e.size) es f.1 found.1
                (omega arith) in
            ground (arith, d, named, read, later)
      ]

  -- one more pair in front hides nothing that was found
  found-cons :
      (read : ZipInfo → Reading) (p : ZipInfo × ZipEntry) (ps : Pairs) (es : List ZipEntry)
      → AllFound read ps es
      → AllFound read (p ∷ ps) es
  unfolding find_info
  found-cons read p ps [] h = tt
  found-cons read p ps (e ∷ es) h = (
    (λ d. let (info, named, exact) = h.0 d in (info, ground (arith, named), exact)),
    found-cons read p ps es h.1,
  )

  found-pairs :
      (read : ZipInfo → Reading) (limits : ArchiveLimits) (ps : Pairs)
      → Made limits ps
      → pairwise_separate (entries_of ps) ≡ true
      → AllExact crc32 read ps
      → AllFound read ps (entries_of ps)
  unfolding entries_of pairwise_separate
  found-pairs read limits [] m w x = tt
  found-pairs read limits ((info, e) ∷ ps) m w x =
      let alone = no_second limits info e ps m.0 m.1 (ground arith) in
      (
        (λ d.
            (info, unfold find_info in ground (arith, alone, text_eq_refl e.archive_name), x.0 d)),
        found-cons read (info, e) ps (entries_of ps)
            (found-pairs read limits ps m.1 (ground arith) x.1),
      )

  found-insert :
      (read : ZipInfo → Reading) (ps : Pairs) (e : ZipEntry) (es : List ZipEntry)
      → IsFound read ps e
      → AllFound read ps es
      → AllFound read ps (insert_entry e es)
  unfolding insert_entry
  found-insert read ps e [] f fs = (f, tt)
  found-insert read ps e (x ∷ xs) f fs = go (key_lt x e) (found-insert read ps e xs f fs.1)
    where
      go :
          (b : Bool)
          → AllFound read ps (insert_entry e xs)
          → AllFound read ps (if b then x ∷ insert_entry e xs else e ∷ x ∷ xs)
      go true later = (fs.0, later)
      go false later = (f, fs)

  found-sorted :
      (read : ZipInfo → Reading) (ps : Pairs) (es : List ZipEntry)
      → AllFound read ps es
      → AllFound read ps (sorted_entries es)
  unfolding sorted_entries
  found-sorted read ps [] f = f
  found-sorted read ps (e ∷ es) f =
      found-insert read ps e (sorted_entries es) f.0 (found-sorted read ps es f.1)

  module _ (casefold : Text → Text) (archive : Archive) (limits : ArchiveLimits)
      (name : Option Text) (m : ZipManifest)
      (h : validate_zip_archive crc32 casefold archive limits name ≡ ok m) where
    unchanged :
        (pairs : Pairs) (declared : ℕ)
        → validate_structure archive.infolist limits ≡ ok (pairs, declared)
        → m.entries ≡ sorted_entries (entries_of pairs)
        → m.archive_size ≡ archive.archive_size
        → check_unchanged crc32 archive limits m ≡ ok pairs
    unfolding check_unchanged validate_zip_archive
    unchanged pairs declared s e z =
        ground (arith, s, e, z, entries_eq_refl (sorted_entries (entries_of pairs)))

    files_written : write_files crc32 archive limits m ≡ some (file_calls m.entries, ok tt)
    unfolding write_files
    files_written =
        let run = validated crc32 casefold archive limits name m h in
        let checked =
          validate_structure-IsSound archive.infolist limits run.pairs run.declared run.structure in
        let sound = validate_zip_archive-IsSound crc32 casefold archive limits name m h in
        let exact =
          inflate-AllExact crc32 archive limits 0 run.pairs m.total_bytes checked.0.fit
            run.inflated in
        let found =
          found-sorted archive.read run.pairs (entries_of run.pairs)
            (found-pairs archive.read limits run.pairs checked.2 checked.0.separate exact.0) in
        let listed = subst (AllFound archive.read run.pairs) (sym run.listed) found in
        let written =
          write_entries_complete archive limits run.pairs 0 m.entries sound.0.fit listed
            (omega (arith, sound.0.total_capped)) in
        rw (unchanged run.pairs run.declared run.structure run.listed run.same_size, write_files)
          written

    -- A ZIP that passes, left as it is, is materialized to its end under the same limits, if no path
    -- in it begins with a drive letter and a colon: every required directory is made, in order, then
    -- every file is written with its declared size, in the order of the manifest.
    pub materialize-validated :
        extractable m.entries ≡ true
        → materialize_zip_archive crc32 archive m limits
          ≡ some
              (map make_directory (required_directories m.entries) ++ file_calls m.entries, ok tt)
    unfolding materialize_zip_archive
    materialize-validated x =
        ground (arith, validated-accepted crc32 casefold archive limits name m h x, files_written)
