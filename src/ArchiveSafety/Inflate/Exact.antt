-- ===== src/ArchiveSafety/Inflate/Exact.antt =====
-- What a ZIP that passes `validate_zip_archive` satisfies.
use termroom.Prelude.{
  ℕ, ◌+◌, ◌%◌, ◌^◌, ◌≤◌, true, false, Option, none, List, [], ◌∷◌, Text, length, ◌≡◌, inl, inr, sym,
  ap, subst, arith, Bool-cases, ◌∙◌,
}
use termroom.Prelude.Result.{ok, bind-eq-ok, Result-cases}
use termroom.ArchiveSafety.Entry.{ArchiveLimits, ZipInfo, ZipEntry, is_directory}
use termroom.ArchiveSafety.Structure.{validate_structure}
use termroom.ArchiveSafety.Structure.Sound.{
  IsSound, AllFit, Made, Pairs, infos_of, entries_of, total_size, validate_structure-IsSound,
}
use termroom.ArchiveSafety.Manifest.{
  ZipManifest, cwd_rel, sorted_entries, validate_materialization_manifest,
}
use termroom.ArchiveSafety.Manifest.Sorted.{sorted-IsSound, total_size-sorted}
use termroom.ArchiveSafety.Manifest.Accepts.{extractable, validate_manifest-accepts}
use termroom.ArchiveSafety.Inflate.{
  Reading, Archive, read_chunks, iter_info_chunks, inflate_pairs, validate_zip_archive,
}

-- the bytes of all chunks
unfoldable pub byte_count : List (List ℕ) → ℕ
byte_count [] = 0
byte_count (chunk ∷ chunks) = length chunk + byte_count chunks

manifest-eq :
    (m : ZipManifest)
    → total_size m.entries ≡ m.total_bytes
    → cwd_rel m.entries ≡ m.cwd_rel
    → record {
      entries = m.entries;
      total_bytes = total_size m.entries;
      cwd_rel = cwd_rel m.entries;
      archive_size = m.archive_size;
    }
      ≡ m
manifest-eq m t d = λ i. record m { total_bytes = t i; cwd_rel = d i }

module _ (crc32 : List ℕ → ℕ → ℕ) where
  -- `zlib.crc32` run over all chunks
  unfoldable pub checksum : ℕ → List (List ℕ) → ℕ
  checksum crc [] = crc
  checksum crc (chunk ∷ chunks) = checksum (crc32 chunk crc) chunks

  read_chunks-eq :
      (limits : ArchiveLimits) (before actual crc : ℕ) (chunks : List (List ℕ)) (last : ℕ × ℕ)
      → read_chunks crc32 limits before actual crc chunks ≡ ok last
      → (last.0 ≡ actual + byte_count chunks) × (last.1 ≡ checksum crc chunks)
  unfolding read_chunks byte_count checksum
  read_chunks-eq limits before actual crc [] last h = ground arith
  read_chunks-eq limits before actual crc (chunk ∷ chunks) last h =
      ground
        (arith, read_chunks-eq limits before (actual + length chunk) (crc32 chunk crc) chunks last)

  read_chunks-ok :
      (limits : ArchiveLimits) (before actual crc : ℕ) (chunks : List (List ℕ))
      → actual + byte_count chunks ≤ limits.max_single_file_bytes
      → before + actual + byte_count chunks ≤ limits.max_total_bytes
      → read_chunks crc32 limits before actual crc chunks
        ≡ ok (actual + byte_count chunks, checksum crc chunks)
  unfolding read_chunks byte_count checksum
  read_chunks-ok limits before actual crc [] s t = ground arith
  read_chunks-ok limits before actual crc (chunk ∷ chunks) s t =
      ground (arith, read_chunks-ok limits before (actual + length chunk) (crc32 chunk crc) chunks)

  -- the data of an entry is what the entry declares
  pub record IsExact (reading : Reading) (e : ZipEntry) : Type 0 where
    pub readable : reading.failure ≡ none
    pub size_matches : byte_count reading.chunks ≡ e.size
    pub crc_matches : checksum 0 reading.chunks % 2 ^ 32 ≡ e.crc32

  iter-inversion :
      (reading : Reading) (e : ZipEntry) (limits : ArchiveLimits) (before n : ℕ)
      → iter_info_chunks crc32 reading e limits before ≡ ok n
      → (last : ℕ × ℕ) × (read_chunks crc32 limits before 0 0 reading.chunks ≡ ok last)
        × (reading.failure ≡ none)
        × (last.0 ≡ e.size)
        × (last.1 % 2 ^ 32 ≡ e.crc32)
        × (n ≡ last.0)
  unfolding iter_info_chunks
  iter-inversion reading e limits before n h = ground arith

  iter-IsExact :
      (reading : Reading) (e : ZipEntry) (limits : ArchiveLimits) (before n : ℕ)
      → iter_info_chunks crc32 reading e limits before ≡ ok n
      → IsExact reading e × (n ≡ e.size)
  iter-IsExact reading e limits before n h =
      let (last, done, readable, size, crc, same) = iter-inversion reading e limits before n h in
      let counted = read_chunks-eq limits before 0 0 reading.chunks last done in
      (
        record {
          readable = readable;
          size_matches = omega arith;
          crc_matches = rw (← counted.1) crc;
        },
        omega arith,
      )

  -- Data that is what the entry declares is read to its end, if it fits the limits.
  pub exact-iter :
      (reading : Reading) (e : ZipEntry) (limits : ArchiveLimits) (before : ℕ)
      → IsExact reading e
      → e.size ≤ limits.max_single_file_bytes
      → before + e.size ≤ limits.max_total_bytes
      → iter_info_chunks crc32 reading e limits before ≡ ok e.size
  unfolding iter_info_chunks
  exact-iter reading e limits before x s t = ground (
    arith,
    x,
    read_chunks-ok limits before 0 0 reading.chunks (omega (arith, x)) (omega (arith, x)),
  )

  -- every file among the pairs is exact
  abbrev pub AllExact : (ZipInfo → Reading) → Pairs → Type 0
  AllExact read [] = Unit {0}
  AllExact read (p ∷ ps) =
      (is_directory p.1.kind ≡ false → IsExact (read p.0) p.1) × AllExact read ps

  pub inflate-AllExact :
      (archive : Archive) (limits : ArchiveLimits) (before : ℕ) (pairs : Pairs) (n : ℕ)
      → AllFit limits (entries_of pairs)
      → inflate_pairs crc32 archive limits before pairs ≡ ok n
      → AllExact archive.read pairs × (n ≡ before + total_size (entries_of pairs))
  unfolding inflate_pairs entries_of total_size
  inflate-AllExact archive limits before [] n f h = (tt, ground arith)
  inflate-AllExact archive limits before ((info, e) ∷ ps) n f h =
      elim (Bool-cases (is_directory e.kind)) [
        | inl d ↦
            let rest = inflate-AllExact archive limits before ps n f.1 (ground arith) in
            let empty = (f.0.directory_empty d).0 in
            ((λ c. ground arith, rest.0), omega (arith, rest.1))
        | inr d ↦
            let step =
              bind-eq-ok (iter_info_chunks crc32 (archive.read info) e limits before)
                (λ size. inflate_pairs crc32 archive limits (before + size) ps) (ground arith) in
            let exact = iter-IsExact (archive.read info) e limits before step.0 step.1 in
            let rest = inflate-AllExact archive limits (before + step.0) ps n f.1 step.2 in
            ((λ c. exact.0, rest.0), omega (arith, rest.1, exact.1))
      ]

  -- one run of `validate_zip_archive` that goes through
  pub record Validated (archive : Archive) (limits : ArchiveLimits) (m : ZipManifest) : Type 0 where
    pub pairs : Pairs
    pub declared : ℕ
    pub structure : validate_structure archive.infolist limits ≡ ok (pairs, declared)
    pub inflated : inflate_pairs crc32 archive limits 0 pairs ≡ ok m.total_bytes
    pub listed : m.entries ≡ sorted_entries (entries_of pairs)
    pub directory : m.cwd_rel ≡ cwd_rel m.entries
    pub same_size : m.archive_size ≡ archive.archive_size
    pub upload_capped : archive.archive_size ≤ limits.max_upload_bytes

  pub validated :
      (casefold : Text → Text) (archive : Archive) (limits : ArchiveLimits) (name : Option Text)
      (m : ZipManifest)
      → validate_zip_archive crc32 casefold archive limits name ≡ ok m
      → Validated archive limits m
  unfolding validate_zip_archive
  validated casefold archive limits name m h =
      elim (Result-cases (validate_structure archive.infolist limits)) [
        | inr (code, failed) ↦ absurd (ground arith)
        | inl (checked, s) ↦ elim (Result-cases (inflate_pairs crc32 archive limits 0 checked.0)) [
          | inr (code, failed) ↦ absurd (ground arith)
          | inl (total, t) ↦ record {
            pairs = checked.0;
            declared = checked.1;
            structure = s;
            inflated = ground arith;
            listed = ground arith;
            directory = ground arith;
            same_size = ground arith;
            upload_capped = ground arith;
          }
        ]
      ]

  -- The manifest of a ZIP that passes lists sound entries, each made of one record of the central
  -- directory; the data of every file was read to its end and has the declared size and checksum;
  -- and the total is the sum of the sizes.
  pub validate_zip_archive-IsSound :
      (casefold : Text → Text) (archive : Archive) (limits : ArchiveLimits) (name : Option Text)
      (m : ZipManifest)
      → validate_zip_archive crc32 casefold archive limits name ≡ ok m
      → IsSound limits m.entries
        × (m.total_bytes ≡ total_size m.entries)
        × ((pairs : Pairs) × (m.entries ≡ sorted_entries (entries_of pairs))
            × (infos_of pairs ≡ archive.infolist)
            × Made limits pairs
            × AllExact archive.read pairs)
  validate_zip_archive-IsSound casefold archive limits name m h =
      let run = validated casefold archive limits name m h in
      let checked =
        validate_structure-IsSound archive.infolist limits run.pairs run.declared run.structure in
      let exact =
        inflate-AllExact archive limits 0 run.pairs m.total_bytes checked.0.fit run.inflated in
      (
        rw run.listed (sorted-IsSound limits (entries_of run.pairs) checked.0),
        exact.1
            ∙ omega (arith, total_size-sorted (entries_of run.pairs))
            ∙ ap total_size (sym run.listed),
        (run.pairs, run.listed, checked.1, checked.2, exact.0),
      )

  -- The manifest of a ZIP that passes is accepted for materialization under the same limits, if no
  -- path in it begins with a drive letter and a colon.
  pub validated-accepted :
      (casefold : Text → Text) (archive : Archive) (limits : ArchiveLimits) (name : Option Text)
      (m : ZipManifest)
      → validate_zip_archive crc32 casefold archive limits name ≡ ok m
      → extractable m.entries ≡ true
      → validate_materialization_manifest m limits ≡ ok tt
  validated-accepted casefold archive limits name m h x =
      let run = validated casefold archive limits name m h in
      let sound = validate_zip_archive-IsSound casefold archive limits name m h in
      subst (λ z. validate_materialization_manifest z limits ≡ ok tt)
        (manifest-eq m (sym sound.1) (sym run.directory))
        (validate_manifest-accepts limits m.entries m.archive_size sound.0 x
          (rw run.same_size run.upload_capped))
