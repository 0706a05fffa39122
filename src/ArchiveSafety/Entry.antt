-- ===== src/ArchiveSafety/Entry.antt =====
-- `_entry_from_info` of termroom/archive_safety.py, with the records it reads and makes. The sizes
-- that `zipfile` reads are unsigned, so the test for negative ones has no counterpart.
pub mod Facts
use termroom.Prelude.{
  ℕ, ◌+◌, ◌/◌, ◌%◌, ◌^◌, Bool, true, false, ◌&&◌, ◌||◌, not, List, [], ◌∷◌, Text, is_empty, ltb,
  ◌==◌, if◌then◌else◌,
}
use termroom.Prelude.Result.{Result, ok, ◌>>=◌, ◌>>◌, reject}
use termroom.Prelude.Split.{any}
use termroom.ArchiveSafety.Path.{
  ArchiveCode, zip_path_encoding, zip_path_limit, zip_encrypted, zip_special_entry,
  zip_type_mismatch, zip_single_file_limit, is_surrogate, normalize_zip_member_path,
}
use termroom.ArchiveSafety.Extra.{ifmt, ifdir, is_plain, reject_link_extra_fields}

pub record ArchiveLimits : Type 0 where
  pub max_upload_bytes : ℕ
  pub max_entries : ℕ
  pub max_single_file_bytes : ℕ
  pub max_total_bytes : ℕ
  pub max_path_bytes : ℕ
  pub chunk_size : ℕ

-- the fields of a `zipfile.ZipInfo` that are read
pub record ZipInfo : Type 0 where
  pub orig_filename : Text
  pub flag_bits : ℕ
  pub external_attr : ℕ
  pub extra : List ℕ
  pub file_size : ℕ
  pub compress_size : ℕ
  pub crc : ℕ

pub data ZipEntryKind : Type 0 where
  file directory : ZipEntryKind

abbrev pub is_directory : ZipEntryKind → Bool
is_directory file = false
is_directory directory = true

pub record ZipEntry : Type 0 where
  pub relative_path : Text
  pub kind : ZipEntryKind
  pub size : ℕ
  pub compressed_size : ℕ
  pub crc32 : ℕ
  pub executable : Bool
  pub archive_name : Text

-- the bytes of one character in UTF-8
abbrev pub char_bytes : ℕ → ℕ
char_bytes c = if ltb c 0x80 then 1 else if ltb c 0x800 then 2 else if ltb c 0x10000 then 3 else 4

-- `len(s.encode("utf-8"))`
unfoldable pub utf8_length : Text → ℕ
utf8_length [] = 0
utf8_length (c ∷ s) = char_bytes c + utf8_length s

-- `raw_name.endswith("/")`
unfoldable pub ends_with_slash : Text → Bool
ends_with_slash [] = false
ends_with_slash (c ∷ s) = if is_empty s then c == b'/' else ends_with_slash s

-- `unix_mode & 0o111`, as a truth value
abbrev pub any_execute_bit : ℕ → Bool
any_execute_bit mode = mode % 2 == 1 || mode / 8 % 2 == 1 || mode / 64 % 2 == 1

-- `(info.external_attr >> 16) & 0xFFFF`
abbrev pub unix_mode_of : ZipInfo → ℕ
unix_mode_of info = info.external_attr / 2 ^ 16 % 2 ^ 16

abbrev bool_ne : Bool → Bool → Bool
bool_ne true b = not b
bool_ne false b = b

-- the entry that `_entry_from_info` returns once nothing was refused
abbrev pub entry_of : ZipInfo → Text → ZipEntry
entry_of info path =
    let slash_directory = ends_with_slash info.orig_filename in
    record {
      relative_path = path;
      kind = if slash_directory then directory else file;
      size = if slash_directory then 0 else info.file_size;
      compressed_size = info.compress_size;
      crc32 = info.crc % 2 ^ 32;
      executable = not slash_directory && any_execute_bit (unix_mode_of info);
      archive_name = info.orig_filename;
    }

unfoldable pub entry_from_info : ZipInfo → ArchiveLimits → Result ArchiveCode ZipEntry
entry_from_info info limits = do
  let raw_name = info.orig_filename
  let file_type = ifmt (unix_mode_of info)
  let slash_directory = ends_with_slash raw_name
  reject (any is_surrogate raw_name) zip_path_encoding
  reject (ltb limits.max_path_bytes (utf8_length raw_name)) zip_path_limit
  path ← normalize_zip_member_path raw_name
  reject (ltb limits.max_path_bytes (utf8_length path)) zip_path_limit
  reject (info.flag_bits % 2 == 1) zip_encrypted
  reject (not (is_plain file_type)) zip_special_entry
  reject (bool_ne (file_type == ifdir) slash_directory && not (file_type == 0)) zip_type_mismatch
  reject_link_extra_fields info.extra
  reject (slash_directory && not (info.file_size == 0)) zip_type_mismatch
  reject (not slash_directory && ltb limits.max_single_file_bytes info.file_size)
      zip_single_file_limit
  ok (entry_of info path)
