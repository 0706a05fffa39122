-- ===== src/ArchiveSafety/Examples.antt =====
-- A ZIP with one directory and one file in it (termroom/archive_safety.py).
use termroom.Prelude.{
  ℕ, ◌+◌, none, some, List, [], ◌∷◌, ◌++◌, map, codes, text_eq, contains, length, ◌≡◌, refl, arith,
}
use termroom.Prelude.Result.{ok, err}
use termroom.Prelude.Split.{any, has, all_parts, split, join, starts_with}
use termroom.ArchiveSafety.Path.{
  is_control, is_surrogate, zip_path_absolute, normalize_zip_member_path, has_drive,
}
use termroom.ArchiveSafety.Path.Normal.{IsSafe, normalize-IsSafe}
use termroom.ArchiveSafety.Entry.{
  ArchiveLimits, ZipInfo, ZipEntry, utf8_length, ends_with_slash, entry_of, entry_from_info,
}
use termroom.ArchiveSafety.Entry.Facts.{IsFit, IsPlain, entry_from_info-IsFit}
use termroom.ArchiveSafety.Conflict.{lookup, nested_below_file, has_child}
use termroom.ArchiveSafety.Path.Normal.{kept, drive_behind_dot}
use termroom.ArchiveSafety.Extra.{reject_link_extra_fields}
use termroom.ArchiveSafety.Extra.Fields.{Field, encode, check_all, reject-encode}
use termroom.ArchiveSafety.Structure.{validate_structure}
use termroom.ArchiveSafety.Structure.Sound.{
  IsSound, Made, Pairs, infos_of, entries_of, total_size, validate_structure-IsSound,
}
use termroom.ArchiveSafety.Manifest.{ZipManifest, cwd_rel, sorted_entries, key_lt}
use termroom.ArchiveSafety.Manifest.Accepts.{extractable}
use termroom.ArchiveSafety.Inflate.{Archive, iter_info_chunks, validate_zip_archive}
use termroom.ArchiveSafety.Inflate.Exact.{AllExact, validate_zip_archive-IsSound}
use termroom.ArchiveSafety.Materialize.{
  make_directory, required_directories, materialize_zip_archive,
}
use termroom.ArchiveSafety.Materialize.Complete.{file_calls, materialize-validated}

abbrev limits : ArchiveLimits
limits = record {
  max_upload_bytes = 1000;
  max_entries = 10;
  max_single_file_bytes = 100;
  max_total_bytes = 200;
  max_path_bytes = 50;
  chunk_size = 2;
}

abbrev directory_info : ZipInfo
directory_info = record {
  orig_filename = codes "a/";
  flag_bits = 0;
  external_attr = 0x41ed0010;
  extra = [];
  file_size = 0;
  compress_size = 0;
  crc = 0;
}

abbrev file_info : ZipInfo
file_info = record {
  orig_filename = codes "./a//b";
  flag_bits = 0;
  external_attr = 0x81ed0000;
  extra = [];
  file_size = 3;
  compress_size = 3;
  crc = 3;
}

-- a stand-in for the checksum
abbrev toy_crc : List ℕ → ℕ → ℕ
toy_crc chunk crc = crc + length chunk

abbrev zip : Archive
zip = record {
  archive_size = 300;
  magic = 0x50 ∷ 0x4b ∷ 3 ∷ 4 ∷ [];
  open_failure = none;
  infolist = file_info ∷ directory_info ∷ [];
  read = λ info. record { chunks = (7 ∷ 8 ∷ []) ∷ (9 ∷ []) ∷ []; failure = none };
}

abbrev file_entry : ZipEntry
file_entry = entry_of file_info (codes "a/b")

abbrev directory_entry : ZipEntry
directory_entry = entry_of directory_info (codes "a")

abbrev zip_pairs : Pairs
zip_pairs = (file_info, file_entry) ∷ (directory_info, directory_entry) ∷ []

abbrev manifest : ZipManifest
manifest = record {
  entries = directory_entry ∷ file_entry ∷ [];
  total_bytes = 3;
  cwd_rel = codes "a";
  archive_size = 300;
}

name_passes : normalize_zip_member_path (codes "./a//b") ≡ ok (codes "a/b")
unfolding normalize_zip_member_path any has starts_with split contains join text_eq
name_passes = refl

normalize-IsSafe_example :
    IsSafe (codes "a/b") × (split b'/' (codes "a/b") ≡ kept (split b'/' (codes "./a//b")))
normalize-IsSafe_example = normalize-IsSafe (codes "./a//b") (codes "a/b") name_passes

drive-IsSafe : IsSafe (codes "C:x")
unfolding all_parts split text_eq any has
drive-IsSafe = record {
  parts_safe = refl;
  no_control = unfold is_control in refl;
  no_backslash = refl;
  encodable = unfold is_surrogate in refl;
}

drive_behind_dot_example :
    (normalize_zip_member_path (codes "./" ++ codes "C:x") ≡ ok (codes "C:x"))
    × (normalize_zip_member_path (codes "C:x") ≡ err zip_path_absolute)
unfolding has_drive
drive_behind_dot_example = drive_behind_dot (codes "C:x") drive-IsSafe refl

abbrev link_field : List Field
link_field = record { header_id = 0x756e; payload = 0 ∷ 0 ∷ 0 ∷ 0 ∷ 0xff ∷ 0xa1 ∷ [] } ∷ []

reject-encode_example : reject_link_extra_fields (encode link_field) ≡ check_all link_field
reject-encode_example = reject-encode link_field (omega arith, omega arith, tt)

file_passes : entry_from_info file_info limits ≡ ok file_entry
unfolding entry_from_info any is_surrogate utf8_length normalize_zip_member_path
    reject_link_extra_fields has starts_with split contains join text_eq ends_with_slash
file_passes = refl

entry_from_info-IsFit_example : IsFit limits file_entry × IsPlain file_info file_entry
entry_from_info-IsFit_example = entry_from_info-IsFit file_info limits file_entry file_passes

zip_passes : validate_structure zip.infolist limits ≡ ok (zip_pairs, 3)
unfolding validate_structure entry_from_info any is_surrogate utf8_length normalize_zip_member_path
    reject_link_extra_fields has starts_with split contains join text_eq ends_with_slash lookup
    nested_below_file has_child
zip_passes = refl

validate_structure-IsSound_example :
    IsSound limits (entries_of zip_pairs)
    × (infos_of zip_pairs ≡ zip.infolist)
    × Made limits zip_pairs
    × (3 ≡ total_size (entries_of zip_pairs))
validate_structure-IsSound_example =
    validate_structure-IsSound zip.infolist limits zip_pairs 3 zip_passes

whole_passes : validate_zip_archive toy_crc (λ s. s) zip limits none ≡ ok manifest
unfolding validate_zip_archive validate_structure entry_from_info any is_surrogate utf8_length
    normalize_zip_member_path reject_link_extra_fields has starts_with split contains join text_eq
    ends_with_slash lookup nested_below_file has_child sorted_entries cwd_rel key_lt entries_of
    iter_info_chunks
whole_passes = refl

validate_zip_archive-IsSound_example :
    IsSound limits manifest.entries
    × (manifest.total_bytes ≡ total_size manifest.entries)
    × ((pairs : Pairs) × (manifest.entries ≡ sorted_entries (entries_of pairs))
        × (infos_of pairs ≡ zip.infolist)
        × Made limits pairs
        × AllExact toy_crc zip.read pairs)
validate_zip_archive-IsSound_example =
    validate_zip_archive-IsSound toy_crc (λ s. s) zip limits none manifest whole_passes

materialize-validated_example :
    materialize_zip_archive toy_crc zip manifest limits
    ≡ some (
      map make_directory (required_directories manifest.entries) ++ file_calls manifest.entries,
      ok tt,
    )
unfolding extractable has_drive
materialize-validated_example =
    materialize-validated toy_crc (λ s. s) zip limits none manifest whole_passes refl
