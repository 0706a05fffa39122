-- ===== src/FileRuns/Steps/Forgotten.antt =====
-- The runs when terminals were deleted (termroom/db.py).
use termroom.Prelude.{
  ◌&&◌, Option, none, some, some-inj, List, [], ◌∷◌, map, Text, text_eq, contains, ◌≡◌, ◌⊎◌, inl,
  inr, refl, sym, ap, arith, Bool-cases, Option-cases, ◌∙◌,
}
use termroom.FileRuns.Table.{FileRun, find, keyed, kept_terminal, without_terminal}

abbrev pub forgotten : List Text → Option FileRun → Option FileRun
forgotten gone none = none
forgotten gone (some r) = some (without_terminal gone r)

pub find-forgotten :
    (gone : List Text) (rs : List FileRun) (id : Text)
    → find (map (without_terminal gone) rs) id ≡ forgotten gone (find rs id)
unfolding find
find-forgotten gone [] id = refl
find-forgotten gone (r ∷ rs) id = elim (Bool-cases (text_eq r.id id)) [
  | inl y ↦ rw y refl
  | inr n ↦ rw n (find-forgotten gone rs id)
]

pub keyed-forgotten :
    (gone : List Text) (rs : List FileRun) (w key : Text)
    → keyed (map (without_terminal gone) rs) w key ≡ forgotten gone (keyed rs w key)
unfolding keyed
keyed-forgotten gone [] w key = refl
keyed-forgotten gone (r ∷ rs) w key =
    elim (Bool-cases (text_eq r.workspace_id w && text_eq r.idempotency_key key)) [
      | inl y ↦ rw y refl
      | inr n ↦ rw n (keyed-forgotten gone rs w key)
    ]

-- a run that is found was there
pub find-before :
    (gone : List Text) (rs : List FileRun) (id : Text) (r : FileRun)
    → find (map (without_terminal gone) rs) id ≡ some r
    → (o : FileRun) × (find rs id ≡ some o) × (r ≡ without_terminal gone o)
find-before gone rs id r h =
    let g = sym (find-forgotten gone rs id) ∙ h in
    elim (Option-cases (find rs id)) [
      | inl n ↦ ground (arith, g, n)
      | inr o ↦ (o.0, o.1, some-inj (sym g ∙ ap (forgotten gone) o.1))
    ]

pub kept_terminal-cases :
    (gone : List Text) (x : Option Text)
    → (kept_terminal gone x ≡ x) ⊎ (kept_terminal gone x ≡ none)
unfolding contains
kept_terminal-cases gone none = inl refl
kept_terminal-cases gone (some t) = elim (Bool-cases (contains gone t)) [
  | inl y ↦ inr (rw y refl)
  | inr n ↦ inl (rw n refl)
]
