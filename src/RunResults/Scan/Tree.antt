-- ===== src/RunResults/Scan/Tree.antt =====
-- What a scan returns (`_scan_tree` of termroom/run_results.py).
use termroom.Prelude.{
  ℕ, suc, ◌+◌, ◌≤◌, Bool, true, false, ◌&&◌, ◌||◌, not, List, [], ◌∷◌, Text, text_eq, text_eq_refl,
  eq_of_text_eq, length, ltb, if◌then◌else◌, ◌≡◌, inl, inr, sym, ap, subst, arith, Bool-cases, ◌∙◌,
}
use termroom.Prelude.Result.{reject-ok, ok-inj, Result, ok, err, reject, bind-eq-ok}
use termroom.RunResults.Items.{
  result_too_many_entries, result_path_duplicate, result_metadata_invalid, result_path_invalid,
  FileEntry,
}
use termroom.RunResults.Files.{utf8_length}
use termroom.Prelude.Posix.{dot}
use termroom.Prelude.Integers.{is_negative}
use termroom.RunSources.Path.{SourceCode, normalize_source_relative_path}
use termroom.RunResults.Scan.{
  max_result_entries, max_result_depth, max_result_path_bytes, parent_of, path_checked,
  validate_child_entry, Scan, bytes_of, is_seen, add_child,
}
use termroom.Prelude.Lists.{All, All-mono}

-- the entry of a directory
unfoldable pub has_directory : List FileEntry → Text → Bool
has_directory [] path = false
has_directory (e ∷ es) path = (e.is_dir && text_eq e.relative_path path) || has_directory es path

-- the root, or a directory of the tree
abbrev pub is_place : List FileEntry → Text → Bool
is_place es path = text_eq path dot || has_directory es path

unfoldable pub unique_paths : List FileEntry → Bool
unique_paths [] = true
unique_paths (e ∷ es) = not (is_seen es e.relative_path) && unique_paths es

-- the sizes of the files
unfoldable pub file_bytes : List FileEntry → ℕ
file_bytes [] = 0
file_bytes (e ∷ es) = (if e.is_dir then 0 else bytes_of e.size) + file_bytes es

abbrev pub AllPlaced : List FileEntry → List FileEntry → Type 0
AllPlaced known es = All (λ e. is_place known (parent_of e.relative_path) ≡ true) es

abbrev pub AllWaiting : List FileEntry → List (Text × ℕ) → Type 0
AllWaiting known pending = All (λ d. is_place known d.0 ≡ true) pending

pub record IsTree (max_archive_bytes : ℕ) (s : Scan) : Type 0 where
  pub unique : unique_paths s.entries ≡ true
  pub bounded : length s.entries ≤ max_result_entries
  pub counted : file_bytes s.entries ≡ s.total_bytes
  pub small : s.total_bytes ≤ max_archive_bytes
  pub placed : AllPlaced s.entries s.entries
  pub waiting : AllWaiting s.entries s.pending

is_place-cons :
    (e : FileEntry) (es : List FileEntry) (path : Text)
    → is_place es path ≡ true
    → is_place (e ∷ es) path ≡ true
unfolding has_directory
is_place-cons e es path h = ground (arith, h)

AllPlaced-cons :
    (e : FileEntry) (known es : List FileEntry) → AllPlaced known es → AllPlaced (e ∷ known) es
AllPlaced-cons e known es a =
    All-mono _ _ es (λ x h. is_place-cons e known (parent_of x.relative_path) h) a

AllWaiting-cons :
    (e : FileEntry) (known : List FileEntry) (pending : List (Text × ℕ))
    → AllWaiting known pending
    → AllWaiting (e ∷ known) pending
AllWaiting-cons e known pending a = All-mono _ _ pending (λ d h. is_place-cons e known d.0 h) a

checked-parent :
    (directory : Text) (x : Result SourceCode Text) (relative : Text)
    → path_checked directory x ≡ ok relative
    → parent_of relative ≡ directory
checked-parent directory (err code) relative h = cc
checked-parent directory (ok path) relative h =
    let v =
      bind-eq-ok (reject (ltb max_result_path_bytes (utf8_length path)) result_path_invalid) _ h in
    let w =
      bind-eq-ok (reject (not (text_eq (parent_of path) directory)) result_path_invalid) _ v.2 in
    let n = reject-ok _ _ w.1 in
    let e : path ≡ relative = ok-inj w.2 in
    ap parent_of (sym e) ∙ eq_of_text_eq (parent_of path) directory (ground (arith, n))

module _ (is_alpha : ℕ → Bool) (max_archive_bytes : ℕ) where
  validate_child-parent :
      (directory : Text) (entry : FileEntry) (relative : Text)
      → validate_child_entry is_alpha directory entry ≡ ok relative
      → parent_of relative ≡ directory
  unfolding validate_child_entry
  validate_child-parent directory entry relative h =
      let v =
        bind-eq-ok
          (reject (is_negative entry.size || is_negative entry.mtime_ns) result_metadata_invalid) _
          h in
      checked-parent directory
        (normalize_source_relative_path is_alpha false true entry.relative_path) relative v.2

  -- the new entry, with what it leaves to do
  grown :
      (relative : Text) (entry : FileEntry) (s : Scan) (directory : Text)
      (pending : List (Text × ℕ)) (total : ℕ)
      → IsTree max_archive_bytes s
      → is_place s.entries directory ≡ true
      → parent_of relative ≡ directory
      → is_seen s.entries relative ≡ false
      → suc (length s.entries) ≤ max_result_entries
      → total ≡ (if entry.is_dir then 0 else bytes_of entry.size) + s.total_bytes
      → total ≤ max_archive_bytes
      → AllWaiting (record entry { relative_path = relative } ∷ s.entries) pending
      → IsTree max_archive_bytes (record {
        pending = pending;
        entries = record entry { relative_path = relative } ∷ s.entries;
        total_bytes = total;
      })
  unfolding unique_paths file_bytes
  grown relative entry s directory pending total a d p n b e l w =
      let x = record entry { relative_path = relative } in
      record {
        unique = ground (arith, a.unique, n);
        bounded = b;
        counted = ground (arith, a.counted, e);
        small = l;
        placed = (
          is_place-cons x s.entries (parent_of relative) (ap (is_place s.entries) p ∙ d),
          AllPlaced-cons x s.entries s.entries a.placed,
        );
        waiting = w;
      }

  pub add_child-IsTree :
      (directory : Text) (depth : ℕ) (entry : FileEntry) (s t : Scan)
      → add_child is_alpha max_archive_bytes directory depth entry s ≡ ok t
      → IsTree max_archive_bytes s
      → is_place s.entries directory ≡ true
      → IsTree max_archive_bytes t
        × ((path : Text) → is_place s.entries path ≡ true → is_place t.entries path ≡ true)
  unfolding add_child has_directory
  add_child-IsTree directory depth entry s t h a d =
      let v = bind-eq-ok (validate_child_entry is_alpha directory entry) _ h in
      let p = validate_child-parent directory entry v.0 v.1 in
      let x = record entry { relative_path = v.0 } in
      let w = bind-eq-ok (reject (is_seen s.entries v.0) result_path_duplicate) _ v.2 in
      let y =
        bind-eq-ok
          (reject (ltb max_result_entries (suc (length s.entries))) result_too_many_entries) _
          w.2 in
      let n = reject-ok _ _ w.1 in
      let m = reject-ok _ _ y.1 in
      let b : suc (length s.entries) ≤ max_result_entries = ground (arith, m) in
      elim (Bool-cases entry.is_dir) [
        | inl k ↦ elim (Bool-cases (ltb max_result_depth (suc depth))) [
          | inl z ↦ ground (arith, y.2, k, z)
          | inr z ↦
              let g : record {
                pending = (v.0, suc depth) ∷ s.pending;
                entries = x ∷ s.entries;
                total_bytes = s.total_bytes;
              }
                  ≡ t =
                ground (arith, y.2, k, z) in
              (
                subst (IsTree max_archive_bytes) g (
                    grown v.0 entry s directory ((v.0, suc depth) ∷ s.pending) s.total_bytes a d p n
                      b (ground (arith, k)) a.small
                      (
                        ground (arith, k, text_eq_refl v.0),
                        AllWaiting-cons x s.entries s.pending a.waiting,
                      )),
                subst
                    (λ z.
                      (path : Text)
                      → is_place s.entries path ≡ true
                      → is_place z.entries path ≡ true)
                    g (λ path q. is_place-cons x s.entries path q),
              )
        ]
        | inr k ↦
            let total = s.total_bytes + bytes_of entry.size in
            elim (Bool-cases (ltb max_archive_bytes total)) [
              | inl z ↦ ground (arith, y.2, k, z)
              | inr z ↦
                  let g : record {
                    pending = s.pending;
                    entries = x ∷ s.entries;
                    total_bytes = total;
                  }
                      ≡ t =
                    ground (arith, y.2, k, z) in
                  (
                    subst (IsTree max_archive_bytes) g (
                        grown v.0 entry s directory s.pending total a d p n b (ground (arith, k))
                          (ground (arith, z)) (AllWaiting-cons x s.entries s.pending a.waiting)),
                    subst
                        (λ z.
                          (path : Text)
                          → is_place s.entries path ≡ true
                          → is_place z.entries path ≡ true)
                        g (λ path q. is_place-cons x s.entries path q),
                  )
            ]
      ]
