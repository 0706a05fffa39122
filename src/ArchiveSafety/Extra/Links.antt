-- ===== src/ArchiveSafety/Extra/Links.antt =====
-- The extra fields that are no link (`_reject_link_extra_fields` of termroom/archive_safety.py).
use termroom.Prelude.{
  ℕ, ◌+◌, ◌*◌, ◌/◌, ◌%◌, ◌≤◌, true, List, [], ◌∷◌, length, ◌≡◌, ◌⊎◌, sym, arith, ◌∙◌,
}
use termroom.Prelude.Result.{ok, bind-eq-ok}
use termroom.Prelude.Lists.{All}
use termroom.ArchiveSafety.Extra.{
  check_unix_field, check_field, reject_link_extra_fields, is_plain, ifmt,
}
use termroom.ArchiveSafety.Extra.Fields.{Field, Fits, encode, check_all, reject-encode}

-- the type in a mode of Unix is none, a directory or a regular file
abbrev pub IsPlainMode : ℕ → Type 0
IsPlainMode mode = (mode / 4096 % 16 ≡ 0) ⊎ ((mode / 4096 % 16 ≡ 4) ⊎ (mode / 4096 % 16 ≡ 8))

-- four bytes of a checksum, then a mode
abbrev pub HasPlainMode : List ℕ → Type 0
HasPlainMode (a ∷ b ∷ c ∷ d ∷ m ∷ n ∷ rest) = IsPlainMode (m + 256 * n)
HasPlainMode _ = ⊥

-- the field of Info-ZIP has a plain mode, and that of PKWARE nothing behind its 12 bytes
pub record IsNoLink (f : Field) : Type 0 where
  pub info_zip : f.header_id ≡ 0x756e → HasPlainMode f.payload
  pub pkware : f.header_id ≡ 0x000d → length f.payload ≤ 12

pub plain_mode : (mode : ℕ) → is_plain (ifmt mode) ≡ true → IsPlainMode mode
plain_mode mode h = ground (arith, h)

unix_field : (payload : List ℕ) → check_unix_field payload ≡ ok tt → HasPlainMode payload
unfolding check_unix_field
unix_field [] h = cc
unix_field (a ∷ []) h = cc
unix_field (a ∷ b ∷ []) h = cc
unix_field (a ∷ b ∷ c ∷ []) h = cc
unix_field (a ∷ b ∷ c ∷ d ∷ []) h = cc
unix_field (a ∷ b ∷ c ∷ d ∷ m ∷ []) h = cc
unix_field (a ∷ b ∷ c ∷ d ∷ m ∷ n ∷ rest) h = plain_mode (m + 256 * n) (ground (arith, h))

field-IsNoLink : (f : Field) → check_field f.header_id f.payload ≡ ok tt → IsNoLink f
unfolding check_field
field-IsNoLink f h = record {
  info_zip = (λ e. unix_field f.payload (ground (arith, h, e)));
  pkware = (λ e. ground (arith, h, e));
}

check_all-IsNoLink : (fs : List Field) → check_all fs ≡ ok tt → All IsNoLink fs
unfolding check_all
check_all-IsNoLink [] h = tt
check_all-IsNoLink (f ∷ fs) h =
    let b = bind-eq-ok (check_field f.header_id f.payload) (λ _. check_all fs) h in
    (field-IsNoLink f b.1, check_all-IsNoLink fs b.2)

pub fields-IsNoLink :
    (fs : List Field) → Fits fs → reject_link_extra_fields (encode fs) ≡ ok tt → All IsNoLink fs
fields-IsNoLink fs v h = check_all-IsNoLink fs (sym (reject-encode fs v) ∙ h)
