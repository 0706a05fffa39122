-- ===== src/TerminalControl/Examples.antt =====
-- Two browsers at one terminal (termroom/terminal_control.py).
use termroom.Prelude.{
  true, false, none, some, List, [], ◌∷◌, Text, text_eq, ne_of_text_eq, contains, strip, ◌≡◌, codes,
  refl,
}
use termroom.TerminalControl.State.{TerminalControl, TerminalResizePlan, init, plan_eq}
use termroom.TerminalControl.Input.{register, mark_grid_fresh, mark_input}
use termroom.TerminalControl.Resize.{
  resize_owner, should_resize, new_plan, begin_resize, resize_applied, commit_resize, abort_resize,
}
use termroom.TerminalControl.History.{view, Call, apply, run}
use termroom.TerminalControl.History.Frame.{view-apply_ne}
use termroom.TerminalControl.History.Valid.{IsValid, run-IsValid}
use termroom.TerminalControl.Control.{same_revision_same_controller}
use termroom.TerminalControl.Plan.{input_makes_plan_stale, aborted_never_commits, resize_round}
use termroom.TerminalControl.Bootstrap.{bootstrap_once}

abbrev t1 : Text
t1 = codes "t1"

abbrev t2 : Text
t2 = codes "t2"

abbrev phone : Text
phone = codes "phone"

abbrev laptop : Text
laptop = codes "laptop"

-- a fresh grid that two browsers of one device open
abbrev opened : List Call
opened =
    Call.mark_grid_fresh t1 []
    ∷ Call.register t1 (codes "d ") phone
    ∷ Call.register t1 (codes "d") laptop
    ∷ []

abbrev joined_state : TerminalControl
joined_state = run init opened

abbrev plan : TerminalResizePlan
plan = new_plan joined_state t1 phone 24 80 (codes "tok")

abbrev begun : TerminalControl
begun = (begin_resize joined_state t1 phone 24 80 (codes "tok")).0

run-IsValid_example : IsValid (view (run init opened) t1)
run-IsValid_example = run-IsValid opened t1

view-apply_ne_example :
    view (apply joined_state (Call.claim_control t2 phone)) t1 ≡ view joined_state t1
unfolding text_eq
view-apply_ne_example =
    view-apply_ne joined_state (Call.claim_control t2 phone) t1 (ne_of_text_eq t2 t1 refl)

same_revision_same_controller_example :
    joined_state.controllers t1
    ≡ (run joined_state (Call.mark_input t1 phone [] ∷ [])).controllers t1
unfolding run init apply register mark_input mark_grid_fresh text_eq contains strip
same_revision_same_controller_example =
    same_revision_same_controller opened (Call.mark_input t1 phone [] ∷ []) t1 refl

input_makes_plan_stale_example :
    let s' = run (mark_input (run joined_state []) t1 laptop []) [] in
    commit_resize s' plan ≡ (s', false)
unfolding run init apply register mark_grid_fresh text_eq contains strip
input_makes_plan_stale_example =
    input_makes_plan_stale joined_state t1 phone 24 80 (codes "tok") [] laptop [] [] refl

aborted_never_commits_example :
    let s' = run (abort_resize begun plan) [] in commit_resize s' plan ≡ (s', false)
aborted_never_commits_example = aborted_never_commits begun plan [] refl

resize_round_example :
    let applied = (resize_applied begun plan).0 in
    let committed = (commit_resize applied plan).0 in
    ((begin_resize joined_state t1 phone 24 80 (codes "tok")).1 ≡ some plan)
    × ((resize_applied begun plan).1 ≡ true)
    × ((commit_resize applied plan).1 ≡ true)
    × (committed.applied_resizes t1 ≡ some (record { client_id = phone; rows = 24; cols = 80 }))
    × (committed.resize_plans t1 ≡ none)
    × (should_resize committed t1 phone 24 80 ≡ false)
unfolding run init apply register mark_grid_fresh resize_owner text_eq contains strip
resize_round_example =
    resize_round joined_state t1 phone 24 80 (codes "tok") (run-IsValid opened t1) refl refl

abbrev after_input : List Call
after_input = Call.mark_input t1 laptop [] ∷ []

bootstrap_once_example :
    (run (resize_applied begun plan).0 after_input).input_owners t1 ≡ some laptop
unfolding run init apply register mark_grid_fresh mark_input begin_resize resize_applied
    resize_owner text_eq contains strip plan_eq
bootstrap_once_example = bootstrap_once begun plan after_input laptop refl refl refl refl
