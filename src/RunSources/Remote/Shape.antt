-- ===== src/RunSources/Remote/Shape.antt =====
-- The paths that `_validate_absolute_remote_path` of termroom/run_sources.py accepts.
use termroom.Prelude.{
  ℕ, ◌≤◌, ◌<◌, true, false, not, List, [], ◌∷◌, ◌++◌, Text, codes, text_eq_iff, is_empty, ==_iff,
  ◌≡◌, ◌≢◌, ◌↔◌, ◌⊎◌, inl, inr, refl, arith,
}
use termroom.Prelude.Lists.{All}
use termroom.Prelude.Result.{ok}
use termroom.Prelude.Split.{any, has, all_parts, join}
use termroom.Prelude.Posix.{is_control, is_name}
use termroom.RunSources.Remote.{validate_absolute_remote_path}
use termroom.RunSources.Remote.Absolute.{IsAbsolute, validate-IsAbsolute, validate-absolute}

-- no control character of ASCII or Latin-1, and no backslash
pub record IsShown (c : ℕ) : Type 0 where
  pub beyond_ascii_controls : 32 ≤ c
  pub no_latin_control : (c < 127) ⊎ (159 < c)
  pub no_backslash : c ≢ 92

-- a name of a directory or a file
pub record IsFileName (q : Text) : Type 0 where
  pub not_empty : q ≢ []
  pub not_here : q ≢ codes "."
  pub not_parent : q ≢ codes ".."
  pub no_slash : All (λ c. c ≢ b'/') q

-- one or two slashes, then names with single slashes between them; after one slash there is a name
pub record IsRemotePath (p : Text) : Type 0 where
  pub start : Text
  pub names : List Text
  pub whole : p ≡ start ++ join b'/' names
  pub named : All IsFileName names
  pub slashes : ((start ≡ codes "/") × (names ≢ [])) ⊎ (start ≡ codes "//")
  pub shown : All IsShown p

lacks-All : (x : ℕ) (s : Text) → has x s ≡ false → All (λ c. c ≢ x) s
unfolding has
lacks-All x [] h = tt
lacks-All x (c ∷ s) h = (ground (arith, h, ==_iff c x), lacks-All x s (ground (arith, h)))

All-lacks : (x : ℕ) (s : Text) → All (λ c. c ≢ x) s → has x s ≡ false
unfolding has
All-lacks x [] a = refl
All-lacks x (c ∷ s) a = ground (arith, a.0, All-lacks x s a.1, ==_iff c x)

clean-All : (s : Text) → any is_control s ≡ false → has b'\\' s ≡ false → All IsShown s
unfolding any has is_control
clean-All [] h b = tt
clean-All (c ∷ s) h b = (
  record {
    beyond_ascii_controls = ground (arith, h);
    no_latin_control = ground (arith, h);
    no_backslash = ground (arith, b, ==_iff c 92);
  },
  clean-All s (ground (arith, h)) (ground (arith, b)),
)

All-clean : (s : Text) → All IsShown s → (any is_control s ≡ false) × (has b'\\' s ≡ false)
unfolding any has is_control
All-clean [] a = (refl, refl)
All-clean (c ∷ s) a =
    let i = All-clean s a.1 in
    let v = a.0 in
    (
      ground (arith, i.0, v.beyond_ascii_controls, v.no_latin_control),
      ground (arith, i.1, v.no_backslash, ==_iff c 92),
    )

names-All :
    (ns : List Text)
    → all_parts is_name ns ≡ true
    → all_parts (λ q. not (has b'/' q)) ns ≡ true
    → All IsFileName ns
unfolding all_parts
names-All [] n l = tt
names-All (q ∷ ns) n l = (
  record {
    not_empty = ground (arith, n);
    not_here = ground (arith, n, text_eq_iff q (codes "."));
    not_parent = ground (arith, n, text_eq_iff q (codes ".."));
    no_slash = lacks-All b'/' q (ground (arith, l));
  },
  names-All ns (ground (arith, n)) (ground (arith, l)),
)

filled : (q : Text) → q ≢ [] → is_empty q ≡ false
filled [] n = absurd (n refl)
filled (c ∷ q) n = refl

All-names :
    (ns : List Text)
    → All IsFileName ns
    → (all_parts is_name ns ≡ true) × (all_parts (λ q. not (has b'/' q)) ns ≡ true)
unfolding all_parts
All-names [] a = (refl, refl)
All-names (q ∷ ns) a =
    let i = All-names ns a.1 in
    let v = a.0 in
    (
      ground (
        arith,
        i.0,
        filled q v.not_empty,
        v.not_here,
        v.not_parent,
        text_eq_iff q (codes "."),
        text_eq_iff q (codes ".."),
      ),
      ground (arith, i.1, All-lacks b'/' q v.no_slash),
    )

names-ne : (ns : List Text) → is_empty ns ≡ false → ns ≢ []
names-ne [] e h = cc
names-ne (q ∷ ns) e h = cc

names-filled : (ns : List Text) → ns ≢ [] → is_empty ns ≡ false
names-filled [] n = absurd (n refl)
names-filled (q ∷ ns) n = refl

absolute-IsRemotePath : (p : Text) → IsAbsolute p → IsRemotePath p
absolute-IsRemotePath p a = record {
  start = a.start;
  names = a.names;
  whole = a.whole;
  named = names-All a.names a.named a.separate;
  slashes = elim a.slashes [ inl s ↦ inl (s.0, names-ne a.names s.1) | inr d ↦ inr d ];
  shown = clean-All p a.no_control a.no_backslash;
}

remote-IsAbsolute : (p : Text) → IsRemotePath p → IsAbsolute p
remote-IsAbsolute p r =
    let n = All-names r.names r.named in
    let c = All-clean p r.shown in
    record {
      start = r.start;
      names = r.names;
      whole = r.whole;
      named = n.0;
      separate = n.1;
      slashes = elim r.slashes [ inl s ↦ inl (s.0, names-filled r.names s.1) | inr d ↦ inr d ];
      no_control = c.0;
      no_backslash = c.1;
    }

-- `_validate_absolute_remote_path` accepts exactly the texts of one or two slashes and then names with
-- single slashes between them, where after one slash there is at least one name, but after two there
-- may be none, so that `//` is accepted; and it returns them unchanged. A name is not empty, `.` or
-- `..`, and has no slash, and no character of the text is a backslash or a control character, those
-- of the codes below 32 and from 127 to 159.
pub validate_path_iff :
    (value p : Text)
    → (validate_absolute_remote_path value ≡ ok p) ↔ ((p ≡ value) × IsRemotePath value)
validate_path_iff value p = (
  λ h. let v = validate-IsAbsolute value p h in (v.0, absolute-IsRemotePath value v.1),
  λ r. rw r.0 (validate-absolute value (remote-IsAbsolute value r.1)),
)
