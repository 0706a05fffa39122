-- ===== src/ArchiveSafety/Conflict/Separate.antt =====
-- The conflict tests keep the paths of an archive apart: no two are the same, and none lies below a
-- file.
use termroom.Prelude.{
  Bool, true, false, ◌&&◌, ◌||◌, not, none, some, List, [], ◌∷◌, ◌++◌, Text, text_eq, text_eq_refl,
  text_eq_iff, contains, is_some, ◌≡◌, ◌≢◌, refl, sym, ap, subst, arith, ◌∙◌,
}
use termroom.Prelude.Split.{
  split, join, starts_with, drop_prefix, split-ne-nil, join-split, split-append_sep,
  append-drop_prefix,
}
use mathlib.Core.List.{append_assoc}
use termroom.ArchiveSafety.Entry.{ZipEntry, is_directory}
use termroom.ArchiveSafety.Conflict.{
  lookup, below, ancestors, is_file, any_file, nested_below_file, has_child,
}

-- two entries whose files and directories can stand in one tree
unfoldable pub separate : ZipEntry → ZipEntry → Bool
separate a b =
    not (text_eq a.relative_path b.relative_path)
    && (is_directory a.kind || not (starts_with b.relative_path (below a.relative_path)))
    && (is_directory b.kind || not (starts_with a.relative_path (below b.relative_path)))

unfoldable pub all_separate : ZipEntry → List ZipEntry → Bool
all_separate e [] = true
all_separate e (x ∷ xs) = separate e x && all_separate e xs

unfoldable pub pairwise_separate : List ZipEntry → Bool
pairwise_separate [] = true
pairwise_separate (e ∷ es) = all_separate e es && pairwise_separate es

pub separate_symm : (a b : ZipEntry) → separate a b ≡ true → separate b a ≡ true
unfolding separate
separate_symm a b h = ground (
  arith,
  text_eq_iff a.relative_path b.relative_path,
  text_eq_iff b.relative_path a.relative_path,
)

-- each of `es` is what `by_path` holds under its path
abbrev Found : List ZipEntry → List ZipEntry → Type 0
Found by_path [] = Unit {0}
Found by_path (x ∷ xs) = (lookup by_path x.relative_path ≡ some x) × Found by_path xs

Found-cons :
    (e : ZipEntry) (by_path xs : List ZipEntry)
    → all_separate e xs ≡ true
    → Found by_path xs
    → Found (e ∷ by_path) xs
unfolding all_separate separate lookup
Found-cons e by_path [] h f = tt
Found-cons e by_path (x ∷ xs) h f =
    (ground (arith, f.0), Found-cons e by_path xs (ground arith) f.1)

Found-self : (by_path : List ZipEntry) → pairwise_separate by_path ≡ true → Found by_path by_path
unfolding pairwise_separate lookup
Found-self [] h = tt
Found-self (e ∷ es) h = (
  ground (arith, text_eq_refl e.relative_path),
  Found-cons e es es (ground arith) (Found-self es (ground arith)),
)

append-ne-nil : (x : Text) (xs : List Text) → (x ∷ xs) ≢ []
append-ne-nil x xs e = cc

ancestors-append :
    (done xs ys : List Text)
    → xs ≢ []
    → ys ≢ []
    → contains (ancestors done (xs ++ ys)) (join b'/' (done ++ xs)) ≡ true
unfolding ancestors contains
ancestors-append done [] ys n m = absurd (n refl)
ancestors-append done (x ∷ []) [] n m = absurd (m refl)
ancestors-append done (x ∷ []) (y ∷ ys) n m =
    ground (arith, text_eq_refl (join b'/' (done ++ x ∷ [])))
ancestors-append done (x ∷ z ∷ xs) ys n m = ground (
  arith,
  ancestors-append (done ++ x ∷ []) (z ∷ xs) ys (append-ne-nil z xs) m,
  append_assoc done (x ∷ []) (z ∷ xs),
)

-- a path that lies below another has it among its ancestors
pub ancestors-below :
    (path above : Text)
    → starts_with path (below above) ≡ true
    → contains (ancestors [] (split b'/' path)) above ≡ true
ancestors-below path above h =
    let rest = drop_prefix path (below above) in
    let e : path ≡ above ++ b'/' ∷ rest =
      sym (append-drop_prefix path (below above) h) ∙ append_assoc above (b'/' ∷ []) rest in
    let parts = ap (split b'/') e ∙ split-append_sep b'/' above rest in
    subst (λ a. contains (ancestors [] (split b'/' path)) a ≡ true) (join-split b'/' above)
      (subst (λ ps. contains (ancestors [] ps) (join b'/' (split b'/' above)) ≡ true) (sym parts)
        (ancestors-append [] (split b'/' above) (split b'/' rest) (split-ne-nil b'/' above)
          (split-ne-nil b'/' rest)))

any_file-contains :
    (by_path : List ZipEntry) (paths : List Text) (path : Text)
    → contains paths path ≡ true
    → is_file (lookup by_path path) ≡ true
    → any_file by_path paths ≡ true
unfolding any_file contains
any_file-contains by_path [] path h f = cc
any_file-contains by_path (p ∷ paths) path h f =
    ground (arith, any_file-contains by_path paths path, text_eq_iff p path)

-- what the checks of one more entry ask of the entries so far
abbrev pub passes : ZipEntry → List ZipEntry → Bool
passes e by_path =
    not (is_some (lookup by_path e.relative_path))
    && not (nested_below_file by_path e.relative_path)
    && (is_directory e.kind || not (has_child by_path e.relative_path))

not_nested :
    (by_path : List ZipEntry) (path : Text) (x : ZipEntry)
    → lookup by_path x.relative_path ≡ some x
    → nested_below_file by_path path ≡ false
    → (is_directory x.kind || not (starts_with path (below x.relative_path))) ≡ true
unfolding nested_below_file
not_nested by_path path x found clear = ground (
  arith,
  ancestors-below path x.relative_path,
  any_file-contains by_path (ancestors [] (split b'/' path)) x.relative_path,
)

checked-separate :
    (e : ZipEntry) (by_path es : List ZipEntry)
    → Found by_path es
    → lookup es e.relative_path ≡ none
    → nested_below_file by_path e.relative_path ≡ false
    → (is_directory e.kind || not (has_child es e.relative_path)) ≡ true
    → all_separate e es ≡ true
unfolding all_separate separate has_child lookup
checked-separate e by_path [] f d n c = refl
checked-separate e by_path (x ∷ xs) f d n c = ground (
  arith,
  not_nested by_path e.relative_path x f.0 n,
  checked-separate e by_path xs f.1,
  text_eq_iff e.relative_path x.relative_path,
  text_eq_iff x.relative_path e.relative_path,
)

-- An entry that passes the checks is separate from all entries so far.
pub passes-separate :
    (e : ZipEntry) (by_path : List ZipEntry)
    → pairwise_separate by_path ≡ true
    → passes e by_path ≡ true
    → all_separate e by_path ≡ true
passes-separate e by_path w h =
    checked-separate e by_path by_path (Found-self by_path w) (ground arith) (ground arith)
      (ground arith)
