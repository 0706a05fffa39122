-- ===== src/Prelude/Posix.antt =====
-- Characters and parts of POSIX paths, and `PurePosixPath` on texts.
use Prim.Native.Nat.{ℕ}
use mathlib.Core.Bool.{Bool, true, false, not, ◌&&◌, ◌||◌}
use mathlib.Core.List.{List, [], ◌∷◌, ◌++◌, reverse}
use mathlib.Core.Path.{◌≡◌, refl}
use native.Mathlib.Omega.{arith}
use termroom.Prelude.Tests.{ltb, leb, if◌then◌else◌}
use termroom.Prelude.Texts.{Text, codes, text_eq, contains, is_empty}
use termroom.Prelude.Split.{all_parts, split, join, starts_with}

-- `unicodedata.category(character) == "Cc"`
unfoldable pub is_control : ℕ → Bool
is_control c = ltb c 32 || (leb 127 c && leb c 159)

-- a code point that `encode("utf-8")` refuses
unfoldable pub is_surrogate : ℕ → Bool
is_surrogate c = leb 0xd800 c && leb c 0xdfff

abbrev pub dot : Text
dot = codes "."

abbrev pub dots : Text
dots = codes ".."

abbrev pub metadata : Text
metadata = codes ".termroom"

-- the parts that `PurePosixPath` keeps
unfoldable pub segments : List Text → List Text
segments [] = []
segments (p ∷ ps) = let rest = segments ps in if is_empty p || text_eq p dot then rest else p ∷ rest

-- the root that `PurePosixPath` keeps: exactly two slashes stay two
unfoldable pub root : Text → Text
root s =
    if starts_with s (codes "//") && not (starts_with s (codes "///"))
    then codes "//"
    else if starts_with s (codes "/")
    then codes "/"
    else []

-- `PurePosixPath(s).as_posix()`
unfoldable pub as_posix : Text → Text
as_posix s =
    let shown = root s ++ join b'/' (segments (split b'/' s)) in
    if is_empty shown then dot else shown

abbrev pub tail : List Text → List Text
tail [] = []
tail (_ ∷ ps) = ps

-- `PurePosixPath(s).parent.parts` of a relative path, the last part first
unfoldable pub parent_stack : Text → List Text
parent_stack s = tail (reverse (segments (split b'/' s)))

-- a part that names something: not empty, `.` or `..`
abbrev pub is_name : Text → Bool
is_name p = not (is_empty p) && not (text_eq p dot) && not (text_eq p dots)

pub segments-names :
    (ps : List Text) → contains ps dots ≡ false → all_parts is_name (segments ps) ≡ true
unfolding segments contains all_parts
segments-names [] h = refl
segments-names (p ∷ ps) h = ground (arith, segments-names ps)

pub segments_fixed : (ps : List Text) → all_parts is_name ps ≡ true → segments ps ≡ ps
unfolding segments all_parts
segments_fixed [] h = refl
segments_fixed (p ∷ ps) h = ground (arith, segments_fixed ps)

pub names-lack_dots : (ps : List Text) → all_parts is_name ps ≡ true → contains ps dots ≡ false
unfolding contains all_parts
names-lack_dots [] h = refl
names-lack_dots (p ∷ ps) h = ground (arith, names-lack_dots ps)

pub segments-all_parts :
    (f : Text → Bool) (ps : List Text) → all_parts f ps ≡ true → all_parts f (segments ps) ≡ true
unfolding segments all_parts
segments-all_parts f [] h = refl
segments-all_parts f (p ∷ ps) h = ground (arith, segments-all_parts f ps)
