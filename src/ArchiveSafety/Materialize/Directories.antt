-- ===== src/ArchiveSafety/Materialize/Directories.antt =====
-- The directories that an archive needs are made parents first.
use termroom.Prelude.{
  ℕ, ◌+◌, ◌≤◌, ◌<◌, Bool, true, false, ◌&&◌, ◌||◌, List, [], ◌∷◌, ◌++◌, Text, text_eq, text_eq_refl,
  text_eq_iff, contains, leb, ◌≡◌, refl, sym, ap, subst, arith, ◌∙◌,
}
use termroom.Prelude.Split.{
  split, join, starts_with, drop_prefix, join-split, all_parts-contains, starts_with-append,
  append-drop_prefix,
}
use termroom.ArchiveSafety.Entry.{ZipEntry, is_directory}
use termroom.ArchiveSafety.Conflict.{below, ancestors}
use termroom.ArchiveSafety.Conflict.Separate.{ancestors-below}
use termroom.ArchiveSafety.Conflict.Complete.{ancestors_above}
use mathlib.Core.List.{append_assoc}
use termroom.ArchiveSafety.Manifest.{count_slashes}
use termroom.ArchiveSafety.Materialize.{
  path_lt, insert_path, insert_paths, directories_of, required_directories,
}

-- every path above `path` is in the list
abbrev pub Closed : List Text → Text → Type 0
Closed ds path = (a : Text) → starts_with path (below a) ≡ true → contains ds a ≡ true

-- each directory comes after all that are above it; `seen` came before the list
abbrev pub ParentsFirst : List Text → List Text → Type 0
ParentsFirst seen [] = Unit {0}
ParentsFirst seen (d ∷ ds) = Closed seen d × ParentsFirst (seen ++ d ∷ []) ds

contains-insert :
    (a : Text) (bs : List Text) (x : Text)
    → contains (insert_path a bs) x ≡ (text_eq a x || contains bs x)
unfolding insert_path contains
contains-insert a [] x = ground arith
contains-insert a (b ∷ bs) x =
    ground (arith, contains-insert a bs x, text_eq_iff a b, text_eq_iff b x, text_eq_iff a x)

contains-inserts :
    (as' bs : List Text) (x : Text)
    → contains (insert_paths as' bs) x ≡ (contains as' x || contains bs x)
unfolding insert_paths contains
contains-inserts [] bs x = refl
contains-inserts (a ∷ as') bs x =
    contains-insert a (insert_paths as' bs) x ∙ ground (arith, contains-inserts as' bs x)

-- no path of the list has fewer slashes than `n`
unfoldable pub at_least : ℕ → List Text → Bool
at_least n [] = true
at_least n (d ∷ ds) = leb n (count_slashes d) && at_least n ds

unfoldable pub ordered : List Text → Bool
ordered [] = true
ordered (d ∷ ds) = at_least (count_slashes d) ds && ordered ds

at_least-insert :
    (n : ℕ) (a : Text) (bs : List Text)
    → at_least n bs ≡ true
    → n ≤ count_slashes a
    → at_least n (insert_path a bs) ≡ true
unfolding insert_path at_least
at_least-insert n a [] h k = ground arith
at_least-insert n a (b ∷ bs) h k = ground (arith, at_least-insert n a bs)

at_least_mono : (m n : ℕ) (bs : List Text) → m ≤ n → at_least n bs ≡ true → at_least m bs ≡ true
unfolding at_least
at_least_mono m n [] h k = refl
at_least_mono m n (b ∷ bs) h k = ground (arith, at_least_mono m n bs)

path_lt-count :
    (a b : Text)
    → (path_lt a b ≡ true → count_slashes a ≤ count_slashes b)
      × (path_lt a b ≡ false → count_slashes b ≤ count_slashes a)
unfolding path_lt
path_lt-count a b = (λ h. ground arith, λ h. ground arith)

ordered-insert : (a : Text) (bs : List Text) → ordered bs ≡ true → ordered (insert_path a bs) ≡ true
unfolding insert_path ordered at_least
ordered-insert a [] h = refl
ordered-insert a (b ∷ bs) h = ground (
  arith,
  ordered-insert a bs,
  at_least-insert (count_slashes b) a bs,
  path_lt-count b a,
  at_least_mono (count_slashes a) (count_slashes b) bs,
)

ordered-inserts : (as' bs : List Text) → ordered bs ≡ true → ordered (insert_paths as' bs) ≡ true
unfolding insert_paths
ordered-inserts [] bs h = h
ordered-inserts (a ∷ as') bs h = ordered-insert a (insert_paths as' bs) (ordered-inserts as' bs h)

required-ordered : (es : List ZipEntry) → ordered (required_directories es) ≡ true
unfolding required_directories
required-ordered [] = unfold ordered in refl
required-ordered (e ∷ es) =
    ordered-inserts (directories_of e) (required_directories es) (required-ordered es)

count-append : (s t : Text) → count_slashes (s ++ t) ≡ count_slashes s + count_slashes t
unfolding count_slashes
count-append [] t = omega arith
count-append (c ∷ s) t = omega (arith, count-append s t)

-- a path has more slashes than any above it
count-below :
    (path a : Text) → starts_with path (below a) ≡ true → count_slashes a < count_slashes path
count-below path a h =
    let rest = drop_prefix path (below a) in
    let e = ap count_slashes (append-drop_prefix path (below a) h) in
    let one : count_slashes (b'/' ∷ []) ≡ 1 = unfold count_slashes in refl in
    omega (arith, e, count-append (below a) rest, count-append a (b'/' ∷ []), one)

at_least-contains :
    (n : ℕ) (ds : List Text) (a : Text)
    → at_least n ds ≡ true
    → contains ds a ≡ true
    → n ≤ count_slashes a
unfolding at_least contains
at_least-contains n [] a h k = cc
at_least-contains n (d ∷ ds) a h k = ground (arith, at_least-contains n ds a, text_eq_iff d a)

starts_trans :
    (s p q : Text) → starts_with s p ≡ true → starts_with p q ≡ true → starts_with s q ≡ true
unfolding starts_with
starts_trans s p [] h k = unfold starts_with in ground arith
starts_trans s [] (d ∷ q) h k = cc
starts_trans [] (c ∷ p) (d ∷ q) h k = cc
starts_trans (b ∷ s) (c ∷ p) (d ∷ q) h k = ground (arith, starts_trans s p q)

contains-append_all :
    (xs ys : List Text) (x : Text) → contains (xs ++ ys) x ≡ (contains xs x || contains ys x)
unfolding contains
contains-append_all [] ys x = refl
contains-append_all (y ∷ xs) ys x = ground (arith, contains-append_all xs ys x)

-- what stands above an ancestor stands above the path
above_above :
    (path d a : Text)
    → starts_with path (below d) ≡ true
    → starts_with d (below a) ≡ true
    → starts_with path (below a) ≡ true
above_above path d a h k =
    starts_trans path d (below a)
      (starts_trans path (below d) d h (starts_with-append d (b'/' ∷ []))) k

ancestor-above :
    (path d : Text)
    → contains (ancestors [] (split b'/' path)) d ≡ true
    → starts_with path (below d) ≡ true
ancestor-above path d h =
    let parts = split b'/' path in
    subst (λ s. starts_with s (below d) ≡ true) (join-split b'/' path)
      (all_parts-contains (λ a. starts_with (join b'/' parts) (below a)) (ancestors [] parts) d
        (ancestors_above parts [] parts refl) h)

own-closed :
    (e : ZipEntry) (d a : Text)
    → contains (directories_of e) d ≡ true
    → starts_with d (below a) ≡ true
    → contains (directories_of e) a ≡ true
unfolding directories_of contains
own-closed e d a h k = ground (
  arith,
  text_eq_iff e.relative_path d,
  ancestor-above e.relative_path d,
  above_above e.relative_path d a,
  ancestors-below e.relative_path a,
)

-- what one entry asks for
own_complete :
    (e : ZipEntry) (a : Text)
    → (starts_with e.relative_path (below a) || (is_directory e.kind && text_eq e.relative_path a))
      ≡ true
    → contains (directories_of e) a ≡ true
unfolding directories_of contains
own_complete e a h = ground (arith, ancestors-below e.relative_path a)

required-closed :
    (es : List ZipEntry) (d a : Text)
    → contains (required_directories es) d ≡ true
    → starts_with d (below a) ≡ true
    → contains (required_directories es) a ≡ true
unfolding required_directories
required-closed [] d a h k = unfold contains in cc
required-closed (e ∷ es) d a h k = ground (
  arith,
  contains-inserts (directories_of e) (required_directories es) d,
  contains-inserts (directories_of e) (required_directories es) a,
  own-closed e d a,
  required-closed es d a,
)

parents_first :
    (whole seen ds : List Text)
    → whole ≡ seen ++ ds
    → ordered ds ≡ true
    → ((d : Text) → contains ds d ≡ true → Closed whole d)
    → ParentsFirst seen ds
unfolding ordered
parents_first whole seen [] e o c = tt
parents_first whole seen (d ∷ ds) e o c = (
  λ a h.
      unfold contains in
      ground (
        arith,
        c d (ground (arith, text_eq_refl d)) a h,
        e,
        contains-append_all seen (d ∷ ds) a,
        count-below d a h,
        at_least-contains (count_slashes d) ds a (ground arith),
        text_eq_iff d a,
      ),
  parents_first whole (seen ++ d ∷ []) ds (e ∙ sym (append_assoc seen (d ∷ []) ds)) (ground arith)
      (λ x h. c x (unfold contains in ground arith)),
)

-- the list has every path above an entry, and a directory's own
abbrev pub Prepared : List Text → ZipEntry → Type 0
Prepared ds e =
    (a : Text)
    → (starts_with e.relative_path (below a) || (is_directory e.kind && text_eq e.relative_path a))
      ≡ true
    → contains ds a ≡ true

abbrev pub AllPrepared : List Text → List ZipEntry → Type 0
AllPrepared ds [] = Unit {0}
AllPrepared ds (e ∷ es) = Prepared ds e × AllPrepared ds es

prepared-more :
    (ds more : List Text) (es : List ZipEntry)
    → AllPrepared ds es
    → AllPrepared (insert_paths more ds) es
prepared-more ds more [] h = tt
prepared-more ds more (e ∷ es) h =
    ((λ a k. ground (arith, contains-inserts more ds a, h.0 a k)), prepared-more ds more es h.1)

all_prepared : (es : List ZipEntry) → AllPrepared (required_directories es) es
unfolding required_directories
all_prepared [] = tt
all_prepared (e ∷ es) = (
  λ a k.
      ground (
        arith,
        contains-inserts (directories_of e) (required_directories es) a,
        own_complete e a k,
      ),
  prepared-more (required_directories es) (directories_of e) es (all_prepared es),
)

-- The directories made for a list of entries hold every path above an entry and every directory
-- entry's own path, and each of them comes after all directories above it.
pub required_directories_lem :
    (es : List ZipEntry)
    → ParentsFirst [] (required_directories es) × AllPrepared (required_directories es) es
required_directories_lem es = (
  parents_first (required_directories es) [] (required_directories es) refl (required-ordered es)
      (λ d h a k. required-closed es d a h k),
  all_prepared es,
)
