-- ===== src/ArchiveSafety/Inflate.antt =====
-- Reading the data of a ZIP (termroom/archive_safety.py): `_iter_info_chunks`, the loop of
-- `validate_zip_archive` over the entries, and `materialize_zip_archive`. `zipfile` and `zlib` are
-- parameters: what reading an entry in chunks gives, and the checksum.
pub mod Exact
use termroom.Prelude.{
  ℕ, ◌+◌, ◌%◌, ◌^◌, not, Option, none, some, List, [], ◌∷◌, Text, contains, length, ltb, ◌==◌,
  if◌then◌else◌,
}
use termroom.Prelude.Result.{Result, ok, err, ◌>>=◌, ◌>>◌, reject}
use termroom.ArchiveSafety.Path.{ArchiveCode, zip_total_limit, zip_single_file_limit}
use termroom.ArchiveSafety.Entry.{ArchiveLimits, ZipInfo, ZipEntry, is_directory}
use termroom.ArchiveSafety.Path.{
  zip_size_mismatch, zip_crc, zip_upload_limit, zip_invalid, zip_magic, validate_zip_filename,
}
use termroom.ArchiveSafety.Structure.{validate_structure}
use termroom.ArchiveSafety.Structure.Sound.{Pairs, entries_of}
use termroom.ArchiveSafety.Manifest.{ZipManifest, cwd_rel, sorted_entries}

-- an error that `zipfile` or `zlib` raises by itself, as `_zip_read_error` tells them apart
pub data ReadFailure : Type 0 where
  bad_crc unreadable : ReadFailure

unfoldable pub zip_read_error : ReadFailure → ArchiveCode
zip_read_error bad_crc = zip_crc
zip_read_error unreadable = zip_invalid

abbrev pub raise_failure : Option ReadFailure → Result ArchiveCode (Unit {0})
raise_failure none = ok tt
raise_failure (some failure) = err (zip_read_error failure)

-- what reading one entry to its end gives: its chunks, and the error raised after them
pub record Reading : Type 0 where
  pub chunks : List (List ℕ)
  pub failure : Option ReadFailure

-- a source: its size, its first four bytes, and, if it can be opened as a ZIP, its central directory
-- with the data behind each record
pub record Archive : Type 0 where
  pub archive_size : ℕ
  pub magic : List ℕ
  pub open_failure : Option ReadFailure
  pub infolist : List ZipInfo
  pub read : ZipInfo → Reading

abbrev pub zip_magics : List (List ℕ)
zip_magics =
    (0x50 ∷ 0x4b ∷ 3 ∷ 4 ∷ []) ∷ (0x50 ∷ 0x4b ∷ 5 ∷ 6 ∷ []) ∷ (0x50 ∷ 0x4b ∷ 7 ∷ 8 ∷ []) ∷ []

unfoldable pub check_magic : List ℕ → Result ArchiveCode (Unit {0})
check_magic magic = reject (not (contains zip_magics magic)) zip_magic

abbrev pub check_filename : (Text → Text) → Option Text → Result ArchiveCode (Unit {0})
check_filename casefold none = ok tt
check_filename casefold (some name) = validate_zip_filename casefold name >>= λ _. ok tt

module _ (crc32 : List ℕ → ℕ → ℕ) where
  -- the loop over the chunks; `actual_size` and `crc` are its variables, the result is their last
  -- values
  unfoldable pub read_chunks :
      ArchiveLimits → ℕ → ℕ → ℕ → List (List ℕ) → Result ArchiveCode (ℕ × ℕ)
  read_chunks limits total_before actual_size crc [] = ok (actual_size, crc)
  read_chunks limits total_before actual_size crc (chunk ∷ chunks) = do
    let size = actual_size + length chunk
    reject (ltb limits.max_single_file_bytes size) zip_single_file_limit
    reject (ltb limits.max_total_bytes (total_before + size)) zip_total_limit
    read_chunks limits total_before size (crc32 chunk crc) chunks

  -- the number of bytes yielded
  unfoldable pub iter_info_chunks : Reading → ZipEntry → ArchiveLimits → ℕ → Result ArchiveCode ℕ
  unfolding read_chunks
  iter_info_chunks reading entry limits total_before = do
    last ← read_chunks limits total_before 0 0 reading.chunks
    raise_failure reading.failure
    reject (not (last.0 == entry.size)) zip_size_mismatch
    reject (not (last.1 % 2 ^ 32 == entry.crc32)) zip_crc
    ok last.0

  -- the loop of `validate_zip_archive`, with its variable `actual_total`
  unfoldable pub inflate_pairs : Archive → ArchiveLimits → ℕ → Pairs → Result ArchiveCode ℕ
  inflate_pairs archive limits actual_total [] = ok actual_total
  inflate_pairs archive limits actual_total (p ∷ ps) =
      if is_directory p.1.kind then inflate_pairs archive limits actual_total ps else do
        size ← iter_info_chunks (archive.read p.0) p.1 limits actual_total
        inflate_pairs archive limits (actual_total + size) ps

  -- `original_filename` is `None` or a name; `casefold` is Unicode's
  unfoldable pub validate_zip_archive :
      (Text → Text) → Archive → ArchiveLimits → Option Text → Result ArchiveCode ZipManifest
  unfolding inflate_pairs check_magic
  validate_zip_archive casefold archive limits original_filename = do
    check_filename casefold original_filename
    reject (ltb limits.max_upload_bytes archive.archive_size) zip_upload_limit
    check_magic archive.magic
    raise_failure archive.open_failure
    checked ← validate_structure archive.infolist limits
    actual_total ← inflate_pairs archive limits 0 checked.0
    let entries = sorted_entries (entries_of checked.0)
    ok (record {
      entries = entries;
      total_bytes = actual_total;
      cwd_rel = cwd_rel entries;
      archive_size = archive.archive_size;
    })
