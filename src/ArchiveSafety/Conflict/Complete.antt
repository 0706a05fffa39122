-- ===== src/ArchiveSafety/Conflict/Complete.antt =====
-- The conflict tests refuse nothing but conflicts.
use termroom.Prelude.{
  true, false, ◌||◌, not, none, some, List, [], ◌∷◌, ◌++◌, Text, text_eq_iff, ◌≡◌, ◌≢◌, inl, inr,
  refl, sym, ap, subst, arith, Option-cases, ◌∙◌,
}
use termroom.Prelude.Split.{all_parts, split, join, starts_with, join-split, starts_with-append}
use mathlib.Core.List.{append_assoc}
use termroom.ArchiveSafety.Entry.{ZipEntry, is_directory}
use termroom.ArchiveSafety.Conflict.{
  lookup, below, ancestors, any_file, nested_below_file, has_child,
}
use termroom.ArchiveSafety.Conflict.Separate.{separate, all_separate, passes}

cons-ne-nil : (x : Text) (xs : List Text) → (x ∷ xs) ≢ []
cons-ne-nil x xs e = cc

join-append :
    (xs ys : List Text)
    → xs ≢ []
    → ys ≢ []
    → join b'/' (xs ++ ys) ≡ join b'/' xs ++ b'/' ∷ join b'/' ys
unfolding join
join-append [] ys n m = absurd (n refl)
join-append (x ∷ []) [] n m = absurd (m refl)
join-append (x ∷ []) (y ∷ ys) n m = refl
join-append (x ∷ z ∷ xs) ys n m =
    ap (λ s. x ++ b'/' ∷ s) (join-append (z ∷ xs) ys (cons-ne-nil z xs) m)
    ∙ sym (append_assoc x (b'/' ∷ join b'/' (z ∷ xs)) (b'/' ∷ join b'/' ys))

pub starts_below : (above rest : Text) → starts_with (above ++ b'/' ∷ rest) (below above) ≡ true
starts_below above rest =
    rw (← append_assoc above (b'/' ∷ []) rest) (starts_with-append (below above) rest)

snoc-ne-nil : (xs : List Text) (x : Text) → (xs ++ x ∷ []) ≢ []
snoc-ne-nil [] x e = cc
snoc-ne-nil (y ∷ xs) x e = cc

above_start :
    (whole done ps : List Text)
    → done ≢ []
    → ps ≢ []
    → whole ≡ done ++ ps
    → starts_with (join b'/' whole) (below (join b'/' done)) ≡ true
above_start whole done ps n m e =
    subst (λ s. starts_with s (below (join b'/' done)) ≡ true)
      (sym (ap (join b'/') e ∙ join-append done ps n m))
      (starts_below (join b'/' done) (join b'/' ps))

-- every ancestor of a path is a path above it
pub ancestors_above :
    (whole done ps : List Text)
    → whole ≡ done ++ ps
    → all_parts (λ a. starts_with (join b'/' whole) (below a)) (ancestors done ps) ≡ true
unfolding ancestors all_parts
ancestors_above whole done [] e = refl
ancestors_above whole done (p ∷ []) e = refl
ancestors_above whole done (p ∷ q ∷ ps) e =
    let e' : whole ≡ (done ++ p ∷ []) ++ q ∷ ps = e ∙ sym (append_assoc done (p ∷ []) (q ∷ ps)) in
    ground (
      arith,
      above_start whole (done ++ p ∷ []) (q ∷ ps) (snoc-ne-nil done p) (cons-ne-nil q ps) e',
      ancestors_above whole (done ++ p ∷ []) (q ∷ ps) e',
    )

-- what a path is stored under is its own
lookup-path :
    (es : List ZipEntry) (path : Text) (x : ZipEntry)
    → lookup es path ≡ some x
    → x.relative_path ≡ path
unfolding lookup
lookup-path [] path x h = cc
lookup-path (e ∷ es) path x h =
    ground (arith, lookup-path es path x, text_eq_iff e.relative_path path)

separate-lookup :
    (e : ZipEntry) (es : List ZipEntry) (path : Text) (x : ZipEntry)
    → all_separate e es ≡ true
    → lookup es path ≡ some x
    → separate e x ≡ true
unfolding lookup all_separate
separate-lookup e [] path x w h = cc
separate-lookup e (y ∷ es) path x w h = ground (arith, separate-lookup e es path x)

directory_above :
    (e x : ZipEntry) (path : Text)
    → separate e x ≡ true
    → x.relative_path ≡ path
    → starts_with e.relative_path (below path) ≡ true
    → is_directory x.kind ≡ true
unfolding separate
directory_above e x path apart same h = ground arith

no_file_above :
    (e : ZipEntry) (es : List ZipEntry) (paths : List Text)
    → all_separate e es ≡ true
    → all_parts (λ a. starts_with e.relative_path (below a)) paths ≡ true
    → any_file es paths ≡ false
unfolding any_file all_parts
no_file_above e es [] w h = refl
no_file_above e es (path ∷ paths) w h = elim (Option-cases (lookup es path)) [
  | inl n ↦ ground (arith, no_file_above e es paths)
  | inr (x, found) ↦
      let clear =
        directory_above e x path (separate-lookup e es path x w found)
          (lookup-path es path x found) in
      ground (arith, no_file_above e es paths, clear, found)
]

no_child :
    (e : ZipEntry) (es : List ZipEntry)
    → all_separate e es ≡ true
    → (is_directory e.kind || not (has_child es e.relative_path)) ≡ true
unfolding all_separate separate has_child
no_child e [] w = ground arith
no_child e (x ∷ xs) w = ground (arith, no_child e xs)

not_stored :
    (e : ZipEntry) (es : List ZipEntry)
    → all_separate e es ≡ true
    → lookup es e.relative_path ≡ none
unfolding all_separate separate lookup
not_stored e [] w = refl
not_stored e (x ∷ xs) w = ground (
  arith,
  not_stored e xs,
  text_eq_iff e.relative_path x.relative_path,
  text_eq_iff x.relative_path e.relative_path,
)

-- An entry that is separate from all entries so far passes the checks.
pub separate-passes :
    (e : ZipEntry) (es : List ZipEntry) → all_separate e es ≡ true → passes e es ≡ true
unfolding nested_below_file
separate-passes e es w =
    let parts = split b'/' e.relative_path in
    let above = ancestors_above parts [] parts refl in
    let same = join-split b'/' e.relative_path in
    let clear = no_file_above e es (ancestors [] parts) w (
      subst (λ s. all_parts (λ a. starts_with s (below a)) (ancestors [] parts) ≡ true) same
        above) in
    ground (arith, not_stored e es w, no_child e es w, clear)
