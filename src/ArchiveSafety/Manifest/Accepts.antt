-- ===== src/ArchiveSafety/Manifest/Accepts.antt =====
-- The manifest that `validate_zip_archive` makes is accepted when the archive is materialized.
use termroom.Prelude.{
  ℕ, ◌+◌, ◌≤◌, Bool, true, false, ◌&&◌, ◌||◌, not, List, [], ◌∷◌, text_eq_refl, is_some, ltb, ◌==◌,
  ◌≡◌, refl, ap, arith, ◌∙◌,
}
use termroom.Prelude.Result.{ok}
use termroom.ArchiveSafety.Path.{normalize_zip_member_path, has_drive}
use termroom.ArchiveSafety.Path.Normal.{normalize_safe}
use termroom.ArchiveSafety.Entry.{ArchiveLimits, ZipEntry, is_directory}
use termroom.ArchiveSafety.Entry.Facts.{IsFit}
use termroom.ArchiveSafety.Conflict.{lookup, nested_below_file, has_child}
use termroom.ArchiveSafety.Conflict.Separate.{all_separate, pairwise_separate, separate_symm}
use termroom.ArchiveSafety.Conflict.Complete.{separate-passes}
use termroom.ArchiveSafety.Structure.Sound.{IsSound, AllFit, total_size, each_separate}
use termroom.ArchiveSafety.Manifest.{cwd_rel, validate_entries, validate_materialization_manifest}

-- no path begins with a drive letter and a colon
unfoldable pub extractable : List ZipEntry → Bool
extractable [] = true
extractable (e ∷ es) = not (has_drive e.relative_path) && extractable es

each_separate-new :
    (es : List ZipEntry) (e : ZipEntry) (others : List ZipEntry)
    → all_separate e es ≡ true
    → each_separate es others ≡ true
    → each_separate es (e ∷ others) ≡ true
unfolding each_separate all_separate
each_separate-new [] e others a h = refl
each_separate-new (x ∷ xs) e others a h =
    ground (arith, each_separate-new xs e others, separate_symm e x)

each_separate-nil : (es : List ZipEntry) → each_separate es [] ≡ true
unfolding each_separate all_separate
each_separate-nil [] = refl
each_separate-nil (e ∷ es) = each_separate-nil es

module _ (limits : ArchiveLimits) (by_path : List ZipEntry) (total : ℕ) (e : ZipEntry)
    (f : IsFit limits e) (w : all_separate e by_path ≡ true)
    (c : total + e.size ≤ limits.max_total_bytes) where
  metadata-accepted :
      ((is_directory e.kind && (not (e.size == 0) || e.executable)) ≡ false)
      × ((not (is_directory e.kind) && ltb limits.max_single_file_bytes e.size) ≡ false)
      × (ltb limits.max_total_bytes (total + e.size) ≡ false)
  metadata-accepted =
      (ground (arith, f.directory_empty), ground (arith, f.size_capped), ground arith)

  place-accepted :
      (is_some (lookup by_path e.relative_path) ≡ false)
      × (nested_below_file by_path e.relative_path ≡ false)
      × ((not (is_directory e.kind) && has_child by_path e.relative_path) ≡ false)
  place-accepted =
      let passed = separate-passes e by_path w in
      (ground (arith, passed), ground (arith, passed), ground (arith, passed))

  entry-accepted :
      (es : List ZipEntry)
      → has_drive e.relative_path ≡ false
      → validate_entries limits by_path total (e ∷ es)
        ≡ validate_entries limits (e ∷ by_path) (total + e.size) es
  unfolding validate_entries
  entry-accepted es d =
      let normal : normalize_zip_member_path e.relative_path ≡ ok e.relative_path =
        normalize_safe e.relative_path f.path_safe ∙ rw d in
      let m = metadata-accepted in
      let p = place-accepted in
      rw (normal, text_eq_refl e.relative_path, f.named, m.0, m.1, p.0, p.1, p.2, m.2)

each_separate-head :
    (e : ZipEntry) (es others : List ZipEntry)
    → each_separate (e ∷ es) others ≡ true
    → (all_separate e others ≡ true) × (each_separate es others ≡ true)
unfolding each_separate
each_separate-head e es others h = ground arith

extractable-tail :
    (e : ZipEntry) (es : List ZipEntry)
    → extractable (e ∷ es) ≡ true
    → (has_drive e.relative_path ≡ false) × (extractable es ≡ true)
unfolding extractable
extractable-tail e es h = ground arith

entries-accepted :
    (limits : ArchiveLimits) (by_path : List ZipEntry) (total : ℕ) (es : List ZipEntry)
    → AllFit limits es
    → pairwise_separate es ≡ true
    → each_separate es by_path ≡ true
    → extractable es ≡ true
    → total + total_size es ≤ limits.max_total_bytes
    → validate_entries limits by_path total es ≡ ok (total + total_size es)
unfolding pairwise_separate total_size
entries-accepted limits by_path total [] f w a x c = unfold validate_entries in ap ok (omega arith)
entries-accepted limits by_path total (e ∷ es) f w a x c =
    let clear = extractable-tail e es x in
    let apart = each_separate-head e es by_path a in
    entry-accepted limits by_path total e f.0 apart.0 (omega arith) es clear.0
    ∙ entries-accepted limits (e ∷ by_path) (total + e.size) es f.1 (ground arith)
        (each_separate-new es e by_path (ground arith) apart.1) clear.1 (omega arith)
    ∙ ap ok (omega arith)

-- Sound entries, listed in any order with their sum, their working directory and an upload within
-- the limit, are accepted for materialization, if no path begins with a drive letter and a colon.
pub validate_manifest-accepts :
    (limits : ArchiveLimits) (entries : List ZipEntry) (archive_size : ℕ)
    → IsSound limits entries
    → extractable entries ≡ true
    → archive_size ≤ limits.max_upload_bytes
    → validate_materialization_manifest
        (record {
          entries = entries;
          total_bytes = total_size entries;
          cwd_rel = cwd_rel entries;
          archive_size = archive_size;
        })
        limits
      ≡ ok tt
unfolding validate_materialization_manifest
validate_manifest-accepts limits entries archive_size v x u =
    let sum =
      entries-accepted limits [] 0 entries v.fit v.separate (each_separate-nil entries) x
        (omega (arith, v.total_capped)) in
    ground (arith, sum, v.count_capped, text_eq_refl (cwd_rel entries))
