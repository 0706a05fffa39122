-- ===== src/ArchiveSafety/Entry/Facts.antt =====
-- What an accepted ZIP entry satisfies.
use termroom.Prelude.{
  ◌/◌, ◌%◌, ◌^◌, ◌≤◌, ◌<◌, true, false, List, [], ◌∷◌, ◌++◌, Text, is_empty, ==_iff, ◌≡◌, ◌↔◌, inl,
  inr, refl, sym, ap, arith, Bool-cases, ◌∙◌,
}
use termroom.Prelude.Result.{ok}
use termroom.ArchiveSafety.Path.{normalize_zip_member_path}
use termroom.ArchiveSafety.Path.Normal.{IsSafe, normalize-IsSafe, is_empty-normalize}
use termroom.Prelude.Lists.{All}
use termroom.ArchiveSafety.Extra.Fields.{Field, Fits, encode}
use termroom.ArchiveSafety.Extra.Links.{IsPlainMode, plain_mode, IsNoLink, fields-IsNoLink}
use termroom.ArchiveSafety.Extra.{ifmt, is_plain, reject_link_extra_fields}
use termroom.ArchiveSafety.Entry.{
  ArchiveLimits, ZipInfo, directory, ZipEntry, is_directory, utf8_length, ends_with_slash,
  unix_mode_of, entry_of, entry_from_info,
}

-- an entry that may be written below a directory under these limits
pub record IsFit (limits : ArchiveLimits) (e : ZipEntry) : Type 0 where
  pub path_safe : IsSafe e.relative_path
  pub path_short : utf8_length e.relative_path ≤ limits.max_path_bytes
  pub size_capped : e.size ≤ limits.max_single_file_bytes
  pub directory_empty : is_directory e.kind ≡ true → (e.size ≡ 0) × (e.executable ≡ false)
  pub crc_fits : e.crc32 < 2 ^ 32
  pub named : is_empty e.archive_name ≡ false

-- the name ends in a slash
abbrev pub NamesDirectory : Text → Type 0
NamesDirectory name = (s : Text) × (name ≡ s ++ b'/' ∷ [])

-- what is known of the ZIP's own record of the entry
pub record IsPlain (info : ZipInfo) (e : ZipEntry) : Type 0 where
  pub name_kept : e.archive_name ≡ info.orig_filename
  pub kind_by_slash : (e.kind ≡ directory) ↔ NamesDirectory info.orig_filename
  pub not_encrypted : info.flag_bits % 2 ≡ 0
  -- no link, device, socket or pipe, and a mode of a directory for a directory only
  pub mode_plain : IsPlainMode (info.external_attr / 65536 % 65536)
  pub mode_agrees :
      info.external_attr / 65536 % 65536 / 4096 % 16 ≡ 4 → NamesDirectory info.orig_filename
  pub no_link_fields : (fs : List Field) → Fits fs → info.extra ≡ encode fs → All IsNoLink fs

slash-NamesDirectory : (name : Text) → ends_with_slash name ≡ true → NamesDirectory name
unfolding ends_with_slash
slash-NamesDirectory [] h = cc
slash-NamesDirectory (c ∷ []) h = ([], ap (λ x. x ∷ []) (ground (arith, h, ==_iff c b'/')))
slash-NamesDirectory (c ∷ d ∷ s) h =
    let i = slash-NamesDirectory (d ∷ s) h in (c ∷ i.0, ap (λ t. c ∷ t) i.1)

ends_with_slash-append : (s : Text) → ends_with_slash (s ++ b'/' ∷ []) ≡ true
unfolding ends_with_slash
ends_with_slash-append [] = refl
ends_with_slash-append (c ∷ []) = refl
ends_with_slash-append (c ∷ d ∷ s) = ends_with_slash-append (d ∷ s)

kind-NamesDirectory :
    (info : ZipInfo) (path : Text)
    → ((entry_of info path).kind ≡ directory) ↔ NamesDirectory info.orig_filename
kind-NamesDirectory info path = elim (Bool-cases (ends_with_slash info.orig_filename)) [
  | inl y ↦ ((λ k. slash-NamesDirectory info.orig_filename y), (λ d. rw y refl))
  | inr n ↦ (
    (λ k. absurd (ground (arith, n, k))),
    (λ d. absurd (ground (arith, n, ap ends_with_slash d.1, ends_with_slash-append d.0))),
  )
]

pub entry_inversion :
    (info : ZipInfo) (limits : ArchiveLimits) (e : ZipEntry)
    → entry_from_info info limits ≡ ok e
    → (path : Text) × (normalize_zip_member_path info.orig_filename ≡ ok path)
      × (e ≡ entry_of info path)
unfolding entry_from_info
entry_inversion info limits e h = ground arith

module _ (info : ZipInfo) (limits : ArchiveLimits) (e : ZipEntry)
    (h : entry_from_info info limits ≡ ok e) where
  entry_bounds :
      (utf8_length e.relative_path ≤ limits.max_path_bytes)
      × (e.size ≤ limits.max_single_file_bytes)
  unfolding entry_from_info
  entry_bounds = ground arith

  entry_plain : (info.flag_bits % 2 ≡ 0) × (is_plain (ifmt (unix_mode_of info)) ≡ true)
  unfolding entry_from_info
  entry_plain = ground arith

  entry_mode :
      info.external_attr / 65536 % 65536 / 4096 % 16 ≡ 4 → NamesDirectory info.orig_filename
  unfolding entry_from_info
  entry_mode d = slash-NamesDirectory info.orig_filename (ground (arith, h, d))

  entry_fields : (fs : List Field) → Fits fs → info.extra ≡ encode fs → All IsNoLink fs
  unfolding entry_from_info
  entry_fields fs v x =
      let a : reject_link_extra_fields info.extra ≡ ok tt = ground (arith, h) in
      fields-IsNoLink fs v (ap reject_link_extra_fields (sym x) ∙ a)

  -- An accepted entry has a safe path within the length limit, a size within the single-file limit,
  -- and, if it is a directory, no data and no execute bit; it is a directory if and only if the name in
  -- the ZIP ends in a slash. The ZIP's record of it is not encrypted. Its mode is that of a regular
  -- file, of a directory, then only with such a name, or has no type. Whatever fields its extra bytes
  -- encode, a field 0x756e among them has a mode of one of these three types, and a field 0x000d no more
  -- than 12 bytes.
  pub entry_from_info-IsFit : IsFit limits e × IsPlain info e
  entry_from_info-IsFit =
      let (path, named, made) = entry_inversion info limits e h in
      let bounds = entry_bounds in
      let plain = entry_plain in
      (
        record {
          path_safe = rw made (normalize-IsSafe info.orig_filename path named).0;
          path_short = bounds.0;
          size_capped = bounds.1;
          directory_empty = rw made (ground arith);
          crc_fits = rw made (omega arith);
          named = rw made (is_empty-normalize info.orig_filename path named);
        },
        record {
          name_kept = rw made refl;
          kind_by_slash = rw made (kind-NamesDirectory info path);
          not_encrypted = plain.0;
          mode_plain = plain_mode (unix_mode_of info) plain.1;
          mode_agrees = entry_mode;
          no_link_fields = entry_fields;
        },
      )
