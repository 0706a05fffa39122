-- ===== src/RunResults/Scan/Loop.antt =====
-- The loop of a scan keeps a tree (`_scan_tree` of termroom/run_results.py).
use termroom.Prelude.{
  some-inj, ℕ, zero, suc, ◌-◌, Bool, true, Option, some, List, [], ◌∷◌, Text, length, ◌≡◌, refl,
  sym, subst,
}
use termroom.Prelude.Result.{ok-inj, Result, ok, err, bind-eq-ok}
use termroom.RunResults.Items.{Raised, FileEntry}
use termroom.RunResults.Scan.{
  max_result_entries, ListFault, Scan, add_child, add_children, listed, scan_directory, continued,
  scan_pending,
}
use termroom.RunResults.Scan.Tree.{is_place, AllWaiting, IsTree, add_child-IsTree}

module _ (is_alpha : ℕ → Bool) (max_archive_bytes : ℕ) where
  add_children-IsTree :
      (directory : Text) (depth : ℕ) (children : List FileEntry) (s t : Scan)
      → add_children is_alpha max_archive_bytes directory depth children s ≡ ok t
      → IsTree max_archive_bytes s
      → is_place s.entries directory ≡ true
      → IsTree max_archive_bytes t
  unfolding add_children
  add_children-IsTree directory depth [] s t h a d = subst (IsTree max_archive_bytes) (ok-inj h) a
  add_children-IsTree directory depth (entry ∷ children) s t h a d =
      let v = bind-eq-ok (add_child is_alpha max_archive_bytes directory depth entry s) _ h in
      let w = add_child-IsTree is_alpha max_archive_bytes directory depth entry s v.0 v.1 a d in
      add_children-IsTree directory depth children v.0 t v.2 w.0 (w.1 directory d)

  module _ (list_dir : Text → ℕ → Result ListFault (List FileEntry)) where
    scan_directory-IsTree :
        (d : Text × ℕ) (rest : List (Text × ℕ)) (s t : Scan)
        → s.pending ≡ d ∷ rest
        → scan_directory is_alpha max_archive_bytes list_dir d (record s { pending = rest }) ≡ ok t
        → IsTree max_archive_bytes s
        → IsTree max_archive_bytes t
    scan_directory-IsTree d rest s t e h a =
        let v = bind-eq-ok (listed (list_dir d.0 (max_result_entries - length s.entries))) _ h in
        let w = subst (AllWaiting s.entries) e a.waiting in
        add_children-IsTree d.0 d.1 v.0 (record s { pending = rest }) t v.2
          (record {
            unique = a.unique;
            bounded = a.bounded;
            counted = a.counted;
            small = a.small;
            placed = a.placed;
            waiting = w.1;
          })
          w.0

    continued-ok :
        (more : Scan → Option (Result Raised Scan)) (x : Result Raised Scan) (t : Scan)
        → continued is_alpha max_archive_bytes list_dir more x ≡ some (ok t)
        → (s : Scan) × (x ≡ ok s) × (more s ≡ some (ok t))
    continued-ok more (err e) t h = cc
    continued-ok more (ok s) t h = (s, refl, h)

    pub scan_pending-IsTree :
        (fuel : ℕ) (s t : Scan)
        → scan_pending is_alpha max_archive_bytes list_dir fuel s ≡ some (ok t)
        → IsTree max_archive_bytes s
        → IsTree max_archive_bytes t
    unfolding scan_pending
    scan_pending-IsTree zero s t h a = cc
    scan_pending-IsTree (suc fuel) s t h a =
        (elim s.pending
            as (λ p.
              p ≡ s.pending
              → (elim p [
                | [] ↦ some (ok s)
                | d ∷ rest ↦
                    continued is_alpha max_archive_bytes list_dir
                      (scan_pending is_alpha max_archive_bytes list_dir fuel)
                      (scan_directory is_alpha max_archive_bytes list_dir d
                        (record s { pending = rest }))
              ])
                ≡ some (ok t)
              → IsTree max_archive_bytes t) [
                | [] ↦ λ e k. subst (IsTree max_archive_bytes) (ok-inj (some-inj k)) a
                | d ∷ rest ↦ λ e k.
                    let v =
                      continued-ok (scan_pending is_alpha max_archive_bytes list_dir fuel) _ t k in
                    scan_pending-IsTree fuel v.0 t v.2
                      (scan_directory-IsTree d rest s v.0 (sym e) v.1 a)
              ])
          refl h
