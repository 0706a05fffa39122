-- ===== src/ArchiveSafety/Manifest/Sorted.antt =====
-- Sorting the entries keeps what `_validate_structure` established of them.
use termroom.Prelude.{
  suc, ◌+◌, Bool, true, false, ◌&&◌, List, [], ◌∷◌, length, if◌then◌else◌, ◌≡◌, refl, arith, ◌∙◌,
}
use termroom.ArchiveSafety.Entry.{ArchiveLimits, ZipEntry}
use termroom.ArchiveSafety.Entry.Facts.{IsFit}
use termroom.ArchiveSafety.Conflict.Separate.{
  separate, all_separate, pairwise_separate, separate_symm,
}
use termroom.ArchiveSafety.Structure.Sound.{IsSound, AllFit, total_size}
use termroom.ArchiveSafety.Manifest.{key_lt, insert_entry, sorted_entries}

AllFit-insert :
    (limits : ArchiveLimits) (e : ZipEntry) (es : List ZipEntry)
    → IsFit limits e
    → AllFit limits es
    → AllFit limits (insert_entry e es)
unfolding insert_entry
AllFit-insert limits e [] f fs = (f, tt)
AllFit-insert limits e (x ∷ xs) f fs = go (key_lt x e) (AllFit-insert limits e xs f fs.1)
  where
    go :
        (b : Bool)
        → AllFit limits (insert_entry e xs)
        → AllFit limits (if b then x ∷ insert_entry e xs else e ∷ x ∷ xs)
    go true later = (fs.0, later)
    go false later = (f, fs)

all_separate-insert :
    (a e : ZipEntry) (es : List ZipEntry)
    → all_separate a (insert_entry e es) ≡ (separate a e && all_separate a es)
unfolding insert_entry all_separate
all_separate-insert a e [] = refl
all_separate-insert a e (x ∷ xs) = ground (arith, all_separate-insert a e xs)

pairwise-insert :
    (e : ZipEntry) (es : List ZipEntry)
    → all_separate e es ≡ true
    → pairwise_separate es ≡ true
    → pairwise_separate (insert_entry e es) ≡ true
unfolding insert_entry pairwise_separate all_separate
pairwise-insert e [] a w = refl
pairwise-insert e (x ∷ xs) a w =
    ground (arith, pairwise-insert e xs, all_separate-insert x e xs, separate_symm e x)

total_size-insert :
    (e : ZipEntry) (es : List ZipEntry) → total_size (insert_entry e es) ≡ e.size + total_size es
unfolding insert_entry total_size
total_size-insert e [] = refl
total_size-insert e (x ∷ xs) = ground (arith, total_size-insert e xs)

length-insert : (e : ZipEntry) (es : List ZipEntry) → length (insert_entry e es) ≡ suc (length es)
unfolding insert_entry
length-insert e [] = refl
length-insert e (x ∷ xs) = ground (arith, length-insert e xs)

all_separate-sorted :
    (a : ZipEntry) (es : List ZipEntry) → all_separate a (sorted_entries es) ≡ all_separate a es
unfolding sorted_entries all_separate
all_separate-sorted a [] = refl
all_separate-sorted a (e ∷ es) =
    all_separate-insert a e (sorted_entries es) ∙ ground (arith, all_separate-sorted a es)

AllFit-sorted :
    (limits : ArchiveLimits) (es : List ZipEntry)
    → AllFit limits es
    → AllFit limits (sorted_entries es)
unfolding sorted_entries
AllFit-sorted limits [] f = f
AllFit-sorted limits (e ∷ es) f =
    AllFit-insert limits e (sorted_entries es) f.0 (AllFit-sorted limits es f.1)

pairwise-sorted :
    (es : List ZipEntry)
    → pairwise_separate es ≡ true
    → pairwise_separate (sorted_entries es) ≡ true
unfolding sorted_entries pairwise_separate
pairwise-sorted [] w = refl
pairwise-sorted (e ∷ es) w =
    pairwise-insert e (sorted_entries es) (all_separate-sorted e es ∙ ground arith)
      (pairwise-sorted es (ground arith))

pub total_size-sorted : (es : List ZipEntry) → total_size (sorted_entries es) ≡ total_size es
unfolding sorted_entries total_size
total_size-sorted [] = refl
total_size-sorted (e ∷ es) =
    omega (arith, total_size-insert e (sorted_entries es), total_size-sorted es)

pub length-sorted : (es : List ZipEntry) → length (sorted_entries es) ≡ length es
unfolding sorted_entries
length-sorted [] = refl
length-sorted (e ∷ es) = omega (arith, length-insert e (sorted_entries es), length-sorted es)

pub sorted-IsSound :
    (limits : ArchiveLimits) (es : List ZipEntry)
    → IsSound limits es
    → IsSound limits (sorted_entries es)
sorted-IsSound limits es v = record {
  fit = AllFit-sorted limits es v.fit;
  separate = pairwise-sorted es v.separate;
  total_capped = rw (total_size-sorted es) v.total_capped;
  count_capped = rw (length-sorted es) v.count_capped;
}
