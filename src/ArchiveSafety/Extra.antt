-- ===== src/ArchiveSafety/Extra.antt =====
-- `_reject_link_extra_fields` of termroom/archive_safety.py: the extra bytes of a ZIP entry, each
-- field a two-byte identifier, a two-byte length and that many bytes.
pub mod Fields
pub mod Links
use termroom.Prelude.{
  ℕ, zero, suc, ◌+◌, ◌*◌, ◌/◌, ◌%◌, Bool, ◌&&◌, ◌||◌, not, List, [], ◌∷◌, length, ltb, ◌==◌,
  if◌then◌else◌,
}
use termroom.Prelude.Result.{Result, ok, err, ◌>>=◌, ◌>>◌, reject}
use termroom.Prelude.Lists.{take, drop}
use termroom.ArchiveSafety.Path.{ArchiveCode, zip_extra, zip_special_entry}

-- `stat.S_IFMT(mode)`
abbrev pub ifmt : ℕ → ℕ
ifmt mode = mode / 4096 % 16 * 4096

abbrev pub ifreg : ℕ
ifreg = 0x8000

abbrev pub ifdir : ℕ
ifdir = 0x4000

abbrev pub is_plain : ℕ → Bool
is_plain file_type = file_type == 0 || file_type == ifreg || file_type == ifdir

-- `int.from_bytes(..., "little")` of two bytes
abbrev pub little : ℕ → ℕ → ℕ
little a b = a + 256 * b

-- the test of the Info-ZIP Unix field on `payload[4:6]`
unfoldable pub check_unix_field : List ℕ → Result ArchiveCode (Unit {0})
check_unix_field (a ∷ b ∷ c ∷ d ∷ m ∷ n ∷ rest) =
    reject (not (is_plain (ifmt (little m n)))) zip_special_entry
check_unix_field _ = err zip_extra

-- what the loop does with one field
unfoldable pub check_field : ℕ → List ℕ → Result ArchiveCode (Unit {0})
unfolding check_unix_field
check_field header_id payload = do
  (if header_id == 0x756e then check_unix_field payload else ok tt)
  reject (header_id == 0x000d && ltb 12 (length payload)) zip_special_entry

-- `_iter_extra_fields` with the body of its loop; `extra` is what lies behind the offset, and each
-- round takes at least four bytes off it
unfoldable pub check_fields : ℕ → List ℕ → Result ArchiveCode (Unit {0})
check_fields fuel [] = ok tt
check_fields zero (a ∷ extra) = err zip_extra
check_fields (suc fuel) (a ∷ b ∷ c ∷ d ∷ extra) =
    let size = little c d in
    let rest = check_fields fuel (drop size extra) in
    if ltb (length extra) size
    then err zip_extra
    else do check_field (little a b) (take size extra); rest
check_fields (suc fuel) _ = err zip_extra

unfoldable pub reject_link_extra_fields : List ℕ → Result ArchiveCode (Unit {0})
unfolding check_fields check_field
reject_link_extra_fields extra = check_fields (length extra) extra
