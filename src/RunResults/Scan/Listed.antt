-- ===== src/RunResults/Scan/Listed.antt =====
-- The sorted entries of a scan (`_scan_tree` of termroom/run_results.py).
use termroom.Prelude.{
  ℕ, suc, ◌+◌, ◌≤◌, Bool, true, ◌||◌, Option, none, some, List, [], ◌∷◌, Text, text_eq, text_eq_iff,
  length, ◌≡◌, refl, ap, subst, arith, ◌∙◌,
}
use termroom.Prelude.Result.{Result, ok, err}
use termroom.RunResults.Items.{Raised, FileEntry}
use termroom.RunResults.Scan.{
  max_result_entries, ListFault, parent_of, Scan, is_seen, first_scan, insert_file, sorted_files,
  sorted_scan, scan_tree,
}
use termroom.ArchiveSafety.Manifest.{text_lt}
use termroom.Prelude.Posix.{dot}
use termroom.Prelude.Lists.{All, All-mono, All-if}
use termroom.RunResults.Scan.Tree.{
  has_directory, is_place, unique_paths, file_bytes, AllPlaced, IsTree,
}
use termroom.RunResults.Scan.Loop.{scan_pending-IsTree}

is_seen-insert :
    (e : FileEntry) (xs : List FileEntry) (path : Text)
    → is_seen (insert_file e xs) path ≡ is_seen (e ∷ xs) path
unfolding insert_file is_seen
is_seen-insert e [] path = refl
is_seen-insert e (x ∷ xs) path = ground (arith, is_seen-insert e xs path)

has_directory-insert :
    (e : FileEntry) (xs : List FileEntry) (path : Text)
    → has_directory (insert_file e xs) path ≡ has_directory (e ∷ xs) path
unfolding insert_file has_directory
has_directory-insert e [] path = refl
has_directory-insert e (x ∷ xs) path = ground (arith, has_directory-insert e xs path)

unique-insert :
    (e : FileEntry) (xs : List FileEntry) → unique_paths (insert_file e xs) ≡ unique_paths (e ∷ xs)
unfolding insert_file unique_paths is_seen
unique-insert e [] = refl
unique-insert e (x ∷ xs) = ground (
  arith,
  unique-insert e xs,
  is_seen-insert e xs x.relative_path,
  text_eq_iff x.relative_path e.relative_path,
  text_eq_iff e.relative_path x.relative_path,
)

length-insert : (e : FileEntry) (xs : List FileEntry) → length (insert_file e xs) ≡ suc (length xs)
unfolding insert_file
length-insert e [] = refl
length-insert e (x ∷ xs) = ground (arith, length-insert e xs)

file_bytes-insert :
    (e : FileEntry) (xs : List FileEntry) → file_bytes (insert_file e xs) ≡ file_bytes (e ∷ xs)
unfolding insert_file file_bytes
file_bytes-insert e [] = refl
file_bytes-insert e (x ∷ xs) = ground (arith, file_bytes-insert e xs)

insert-All :
    (P : FileEntry → Type 0) (e : FileEntry) (xs : List FileEntry)
    → P e
    → All P xs
    → All P (insert_file e xs)
unfolding insert_file
insert-All P e [] h a = (h, tt)
insert-All P e (x ∷ xs) h a =
    All-if P (text_lt x.relative_path e.relative_path) (x ∷ insert_file e xs) (e ∷ x ∷ xs)
      (a.0, insert-All P e xs h a.1) (h, a)

sorted-All : (P : FileEntry → Type 0) (xs : List FileEntry) → All P xs → All P (sorted_files xs)
unfolding sorted_files
sorted-All P [] a = tt
sorted-All P (x ∷ xs) a = insert-All P x (sorted_files xs) a.0 (sorted-All P xs a.1)

-- the entries of a scan and the same entries sorted
same_entries :
    (xs : List FileEntry)
    → (unique_paths (sorted_files xs) ≡ unique_paths xs)
      × (length (sorted_files xs) ≡ length xs)
      × (file_bytes (sorted_files xs) ≡ file_bytes xs)
      × ((path : Text) → has_directory (sorted_files xs) path ≡ has_directory xs path)
      × ((path : Text) → is_seen (sorted_files xs) path ≡ is_seen xs path)
unfolding sorted_files unique_paths file_bytes has_directory is_seen
same_entries [] = (refl, refl, refl, (λ path. refl), (λ path. refl))
same_entries (x ∷ xs) =
    let i = same_entries xs in
    let s = sorted_files xs in
    (
      ground (arith, unique-insert x s, i.0, i.4 x.relative_path),
      ground (arith, length-insert x s, i.1),
      ground (arith, file_bytes-insert x s, i.2),
      (λ path. ground (arith, has_directory-insert x s path, i.3 path)),
      (λ path. ground (arith, is_seen-insert x s path, i.4 path)),
    )

-- the entries are a tree within the limits
pub record IsListing (max_archive_bytes : ℕ) (es : List FileEntry) : Type 0 where
  pub unique : unique_paths es ≡ true
  pub bounded : length es ≤ max_result_entries
  pub small : file_bytes es ≤ max_archive_bytes
  pub placed : AllPlaced es es

sorted-IsListing :
    (max_archive_bytes : ℕ) (s : Scan)
    → IsTree max_archive_bytes s
    → IsListing max_archive_bytes (sorted_files s.entries)
sorted-IsListing max_archive_bytes s a =
    let i = same_entries s.entries in
    record {
      unique = i.0 ∙ a.unique;
      bounded = omega (arith, i.1, a.bounded);
      small = omega (arith, i.2, a.counted, a.small);
      placed =
          sorted-All (λ e. is_place (sorted_files s.entries) (parent_of e.relative_path) ≡ true)
            s.entries
            (All-mono _ _ s.entries
              (λ e h.
                ap (λ b. text_eq (parent_of e.relative_path) dot || b)
                  (i.3 (parent_of e.relative_path))
                ∙ h)
              a.placed);
    }

sorted_scan-ok :
    (x : Option (Result Raised Scan)) (es : List FileEntry)
    → sorted_scan x ≡ some (ok es)
    → (s : Scan) × (x ≡ some (ok s)) × (sorted_files s.entries ≡ es)
sorted_scan-ok none es h = cc
sorted_scan-ok (some (err e)) es h = cc
sorted_scan-ok (some (ok s)) es h = (s, refl, (cc))

-- What a scan returns is a tree within the limits, whatever the listings give: no path stands twice, the
-- parent of each entry is the root or a directory among the entries, there are at most 10,000 entries, and
-- the files have at most the given number of bytes in all.
pub scan_tree-IsListing :
    (is_alpha : ℕ → Bool) (max_archive_bytes : ℕ)
    (list_dir : Text → ℕ → Result ListFault (List FileEntry)) (es : List FileEntry)
    → scan_tree is_alpha max_archive_bytes list_dir ≡ some (ok es)
    → IsListing max_archive_bytes es
unfolding scan_tree unique_paths file_bytes text_eq
scan_tree-IsListing is_alpha max_archive_bytes list_dir es h =
    let v = sorted_scan-ok _ es h in
    subst (IsListing max_archive_bytes) v.2 (
      sorted-IsListing max_archive_bytes v.0 (
        scan_pending-IsTree is_alpha max_archive_bytes list_dir (max_result_entries + 2)
          (first_scan is_alpha max_archive_bytes list_dir) v.0 v.1
          (record {
            unique = refl;
            bounded = omega arith;
            counted = refl;
            small = omega arith;
            placed = tt;
            waiting = (refl, tt);
          })))
