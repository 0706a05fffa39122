-- ===== src/RunResults/Scan/Total.antt =====
-- Listing the tree of a result comes to an end (termroom/run_results.py).
use termroom.Prelude.{
  ℕ, zero, suc, ◌+◌, ◌-◌, ◌≤◌, ◌<◌, Bool, Option, some, List, [], ◌∷◌, Text, length, ltb, ◌≡◌, inl,
  inr, refl, sym, ap, arith, Bool-cases, ◌∙◌,
}
use termroom.Prelude.Result.{Result, ok, err, bind-eq-ok, Result-cases}
use termroom.RunResults.Items.{Raised, FileEntry}
use termroom.RunResults.Scan.{
  max_result_entries, max_result_depth, ListFault, validate_child_entry, Scan, bytes_of, is_seen,
  add_child, add_children, listed, scan_directory, continued, scan_pending, first_scan,
  sorted_files, sorted_scan, scan_tree,
}

-- the directories that wait, and the entries that may still come
abbrev measure : Scan → ℕ
measure s = length s.pending + (max_result_entries - length s.entries)

module _ (is_alpha : ℕ → Bool) (max_archive_bytes : ℕ) where
  add_child-measure :
      (directory : Text) (depth : ℕ) (entry : FileEntry) (s t : Scan)
      → add_child is_alpha max_archive_bytes directory depth entry s ≡ ok t
      → measure t ≤ measure s
  unfolding add_child
  add_child-measure directory depth entry s t h =
      let v = bind-eq-ok (validate_child_entry is_alpha directory entry) _ h in
      elim (Bool-cases (is_seen s.entries v.0)) [
        | inl y ↦ ground (arith, v.2, y)
        | inr n ↦ elim (Bool-cases (ltb max_result_entries (suc (length s.entries)))) [
          | inl y ↦ ground (arith, v.2, n, y)
          | inr m ↦ elim (Bool-cases entry.is_dir) [
            | inl y ↦ elim (Bool-cases (ltb max_result_depth (suc depth))) [
              | inl z ↦ ground (arith, v.2, n, m, y, z)
              | inr z ↦ ground (arith, v.2, n, m, y, z)
            ]
            | inr y ↦
                elim (Bool-cases (ltb max_archive_bytes (s.total_bytes + bytes_of entry.size))) [
                  | inl z ↦ ground (arith, v.2, n, m, y, z)
                  | inr z ↦ ground (arith, v.2, n, m, y, z)
                ]
          ]
        ]
      ]

  add_children-measure :
      (directory : Text) (depth : ℕ) (children : List FileEntry) (s t : Scan)
      → add_children is_alpha max_archive_bytes directory depth children s ≡ ok t
      → measure t ≤ measure s
  unfolding add_children
  add_children-measure directory depth [] s t h = ground (arith, h)
  add_children-measure directory depth (entry ∷ children) s t h =
      let v = bind-eq-ok (add_child is_alpha max_archive_bytes directory depth entry s) _ h in
      omega (
        arith,
        add_child-measure directory depth entry s v.0 v.1,
        add_children-measure directory depth children v.0 t v.2,
      )

  module _ (list_dir : Text → ℕ → Result ListFault (List FileEntry)) where
    scan_directory-measure :
        (d : Text × ℕ) (s t : Scan)
        → scan_directory is_alpha max_archive_bytes list_dir d s ≡ ok t
        → measure t ≤ measure s
    scan_directory-measure d s t h =
        let v = bind-eq-ok (listed (list_dir d.0 (max_result_entries - length s.entries))) _ h in
        add_children-measure d.0 d.1 v.0 s t v.2

    continued-some :
        (more : Scan → Option (Result Raised Scan)) (x : Result Raised Scan)
        → ((t : Scan) → x ≡ ok t → (r : Result Raised Scan) × (more t ≡ some r))
        → (r : Result Raised Scan) × (continued is_alpha max_archive_bytes list_dir more x ≡ some r)
    continued-some more (err e) f = (err e, refl)
    continued-some more (ok s) f = f s refl

    scan_pending-some :
        (fuel : ℕ) (s : Scan)
        → measure s < fuel
        → (r : Result Raised Scan) × (scan_pending is_alpha max_archive_bytes list_dir fuel s
            ≡ some r)
    unfolding scan_pending
    scan_pending-some zero s h = absurd (omega (arith, h))
    scan_pending-some (suc fuel) s h =
        elim s.pending
            as (λ p.
              p ≡ s.pending
              → (r : Result Raised Scan) × ((elim p [
                | [] ↦ some (ok s)
                | d ∷ rest ↦
                    continued is_alpha max_archive_bytes list_dir
                      (scan_pending is_alpha max_archive_bytes list_dir fuel)
                      (scan_directory is_alpha max_archive_bytes list_dir d
                        (record s { pending = rest }))
              ])
                  ≡ some r)) [
                    | [] ↦ λ e. (ok s, refl)
                    | d ∷ rest ↦ λ e.
                        continued-some (scan_pending is_alpha max_archive_bytes list_dir fuel) _
                          (λ t k. scan_pending-some fuel t (
                            let m = scan_directory-measure d (record s { pending = rest }) t k in
                            let l : length s.pending ≡ suc (length rest) = ap length (sym e) in
                            omega (arith, h, m, l)))
                  ]
          refl

-- Whatever the listings of the directories give, the scan of a result tree comes to an end: it returns the
-- entries or raises, also where every directory holds further directories.
pub scan_tree-some :
    (is_alpha : ℕ → Bool) (max_archive_bytes : ℕ)
    (list_dir : Text → ℕ → Result ListFault (List FileEntry))
    → (r : Result Raised (List FileEntry)) × (scan_tree is_alpha max_archive_bytes list_dir
        ≡ some r)
unfolding scan_tree
scan_tree-some is_alpha max_archive_bytes list_dir =
    let v =
      scan_pending-some is_alpha max_archive_bytes list_dir (max_result_entries + 2)
        (first_scan is_alpha max_archive_bytes list_dir) (omega arith) in
    elim (Result-cases v.0) [
      | inl w ↦ (ok (sorted_files w.0.entries), ap sorted_scan (v.1 ∙ ap some w.1))
      | inr w ↦ (err w.0, ap sorted_scan (v.1 ∙ ap some w.1))
    ]
