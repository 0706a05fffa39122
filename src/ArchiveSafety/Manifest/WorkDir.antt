-- ===== src/ArchiveSafety/Manifest/WorkDir.antt =====
-- The working directory that an archive suggests (`_cwd_rel`).
use termroom.Prelude.{
  Bool, true, false, ◌&&◌, ◌||◌, not, List, [], ◌∷◌, ◌++◌, Text, codes, text_eq, text_eq_refl,
  text_eq_iff, ◌≡◌, ◌≢◌, refl, arith,
}
use termroom.Prelude.Split.{split, join, starts_with, split-ne-nil, join-split}
use termroom.ArchiveSafety.Entry.{ZipEntry, is_directory}
use termroom.ArchiveSafety.Conflict.{below}
use termroom.ArchiveSafety.Conflict.Separate.{separate, all_separate, pairwise_separate}
use termroom.ArchiveSafety.Conflict.Complete.{starts_below}
use termroom.ArchiveSafety.Manifest.{
  head_part, top_level, all_in, shows_directory, any_shows, cwd_rel,
}

-- every entry is the directory itself or lies below it
unfoldable pub all_show : Text → List ZipEntry → Bool
all_show top [] = true
all_show top (e ∷ es) = shows_directory top e && all_show top es

abbrev file_at : Text → ZipEntry → Bool
file_at top e = text_eq e.relative_path top && not (is_directory e.kind)

unfoldable pub no_file_at : Text → List ZipEntry → Bool
no_file_at top [] = true
no_file_at top (e ∷ es) = not (file_at top e) && no_file_at top es

not_below_self : (s t : Text) → starts_with s (s ++ b'/' ∷ t) ≡ false
unfolding starts_with
not_below_self [] t = refl
not_below_self (c ∷ s) t = ground (arith, not_below_self s t)

file_hides :
    (top : Text) (e : ZipEntry) (es : List ZipEntry)
    → file_at top e ≡ true
    → all_separate e es ≡ true
    → any_shows top es ≡ false
unfolding any_shows all_separate separate
file_hides top e [] f w = refl
file_hides top e (x ∷ xs) f w = ground (
  arith,
  file_hides top e xs,
  text_eq_iff e.relative_path top,
  text_eq_iff x.relative_path top,
  text_eq_iff top x.relative_path,
)

shown_directory :
    (top : Text) (e : ZipEntry) (es : List ZipEntry)
    → shows_directory top e ≡ true
    → all_separate e es ≡ true
    → no_file_at top es ≡ true
unfolding no_file_at all_separate separate
shown_directory top e [] f w = refl
shown_directory top e (x ∷ xs) f w = ground (
  arith,
  shown_directory top e xs,
  text_eq_iff e.relative_path x.relative_path,
  text_eq_iff e.relative_path top,
  text_eq_iff x.relative_path top,
)

shown-no_file :
    (top : Text) (es : List ZipEntry)
    → pairwise_separate es ≡ true
    → any_shows top es ≡ true
    → no_file_at top es ≡ true
unfolding any_shows no_file_at pairwise_separate
shown-no_file top [] w h = refl
shown-no_file top (e ∷ es) w h = ground (
  arith,
  file_hides top e es,
  shown_directory top e es,
  shown-no_file top es,
  not_below_self top [],
  text_eq_iff e.relative_path top,
)

below_head :
    (path : Text) (parts : List Text)
    → join b'/' parts ≡ path
    → parts ≢ []
    → (text_eq path (head_part parts) || starts_with path (below (head_part parts))) ≡ true
unfolding join
below_head path [] e n = absurd (n refl)
below_head path (p ∷ []) e n = rw (← e) (unfold text_eq in ground (arith, text_eq_refl p))
below_head path (p ∷ q ∷ ps) e n = ground (arith, e, starts_below p (join b'/' (q ∷ ps)))

top_level-below :
    (path : Text)
    → (text_eq path (top_level path) || starts_with path (below (top_level path))) ≡ true
top_level-below path =
    below_head path (split b'/' path) (join-split b'/' path) (split-ne-nil b'/' path)

all_in-show :
    (top : Text) (es : List ZipEntry)
    → all_in top es ≡ true
    → no_file_at top es ≡ true
    → all_show top es ≡ true
unfolding all_in no_file_at all_show
all_in-show top [] h n = refl
all_in-show top (e ∷ es) h n = ground (
  arith,
  all_in-show top es,
  top_level-below e.relative_path,
  text_eq_iff (top_level e.relative_path) top,
)

-- Where the entries of a sound archive suggest a directory other than `.`, every entry is that
-- directory, as a directory, or lies below it.
pub cwd_rel-all_show :
    (es : List ZipEntry)
    → pairwise_separate es ≡ true
    → cwd_rel es ≢ codes "."
    → all_show (cwd_rel es) es ≡ true
unfolding cwd_rel
cwd_rel-all_show [] w n = absurd (n refl)
cwd_rel-all_show (e ∷ es) w n =
    let top = top_level e.relative_path in
    ground (arith, all_in-show top (e ∷ es), shown-no_file top (e ∷ es) w)
