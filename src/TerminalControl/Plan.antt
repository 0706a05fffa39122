-- ===== src/TerminalControl/Plan.antt =====
-- The two-phase resize: a plan is opened, applied to the terminal, and committed or aborted.
use termroom.Prelude.{
  ℕ, ◌+◌, ◌≤◌, ◌<◌, Bool, true, false, ◌&&◌, ◌||◌, not, none, some, List, [], ◌∷◌, Text, text_eq,
  text_eq_refl, contains, or_else, ◌≡◌, ◌⊎◌, refl, arith,
}
use termroom.Prelude.Dict.{put}
use termroom.TerminalControl.State.{
  TerminalControl, TerminalResizePlan, plan_eq, is_plan, clients_of,
}
use termroom.TerminalControl.Input.{
  register, input_lock, claim_control, mark_grid_fresh, mark_input, mark_grid_existing,
}
use termroom.TerminalControl.Resize.{
  resize_owner, should_resize, new_plan, begin_resize, plan_current, resize_applied, commit_resize,
  abort_resize,
}
use termroom.TerminalControl.Leave.{unregister}
use termroom.TerminalControl.History.{Terminal, view, Call, terminal_of, apply, run}
use termroom.TerminalControl.History.Frame.{each_terminal}
use termroom.TerminalControl.History.Valid.{IsValid}

plan_eq_refl : (p : TerminalResizePlan) → plan_eq p p ≡ true
unfolding plan_eq
plan_eq_refl p =
    ground (arith, text_eq_refl p.terminal_id, text_eq_refl p.client_id, text_eq_refl p.token)

-- how often input was admitted to the terminal
abbrev pub inputs : Terminal → ℕ
inputs x = or_else x.input_revision 0

inputs-apply_self :
    (s : TerminalControl) (call : Call)
    → inputs (view s (terminal_of call)) ≤ inputs (view (apply s call) (terminal_of call))
unfolding apply register input_lock claim_control mark_grid_fresh mark_input mark_grid_existing
    begin_resize resize_applied commit_resize abort_resize unregister
inputs-apply_self s (Call.register t d c) = ground (arith, text_eq_refl t)
inputs-apply_self s call = ground (arith, text_eq_refl (terminal_of call))

inputs-run :
    (s : TerminalControl) (calls : List Call) (t : Text)
    → inputs (view s t) ≤ inputs (view (run s calls) t)
unfolding run
inputs-run s [] t = omega arith
inputs-run s (call ∷ calls) t = omega (
  arith,
  each_terminal (λ x y. inputs x ≤ inputs y) (λ x. omega arith) s call (inputs-apply_self s call) t,
  inputs-run (apply s call) calls t,
)

inputs-mark_input :
    (s : TerminalControl) (t c d : Text)
    → contains (clients_of s t) c ≡ true
    → inputs (view (mark_input s t c d) t) ≡ inputs (view s t) + 1
unfolding mark_input
inputs-mark_input s t c d h = ground (arith, text_eq_refl t)

stale-commit :
    (s : TerminalControl) (plan : TerminalResizePlan)
    → plan.revision < inputs (view s plan.terminal_id)
    → commit_resize s plan ≡ (s, false)
unfolding commit_resize
stale-commit s plan h = ground arith

-- Once any joined client has typed into the terminal after a plan was drawn up, the plan is never
-- committed, whatever is called in between and afterwards, and trying to changes nothing.
pub input_makes_plan_stale :
    (s : TerminalControl) (t c : Text) (rows cols : ℕ) (token : Text) (between : List Call)
    (typist device : Text) (later : List Call)
    → contains (clients_of (run s between) t) typist ≡ true
    → let plan = new_plan s t c rows cols token in
      let s' = run (mark_input (run s between) t typist device) later in
      commit_resize s' plan ≡ (s', false)
input_makes_plan_stale s t c rows cols token between typist device later h =
    let plan = new_plan s t c rows cols token in
    let typed = mark_input (run s between) t typist device in
    stale-commit (run typed later) plan (
      omega (
        arith,
        inputs-run s between t,
        inputs-mark_input (run s between) t typist device h,
        inputs-run typed later t,
      ))

-- `begin_resize` with this token
abbrev pub draws : Text → Call → Bool
draws token (Call.begin_resize t c rows cols drawn) = text_eq drawn token
draws token _ = false

abbrev pub never_draws : Text → List Call → Bool
never_draws token [] = true
never_draws token (call ∷ calls) = not (draws token call) && never_draws token calls

plan_eq-token : (p q : TerminalResizePlan) → plan_eq p q ≡ true → text_eq p.token q.token ≡ true
unfolding plan_eq
plan_eq-token p q h = ground arith

closed-apply_self :
    (s : TerminalControl) (call : Call) (plan : TerminalResizePlan)
    → draws plan.token call ≡ false
    → is_plan (s.resize_plans (terminal_of call)) plan ≡ false
    → is_plan ((apply s call).resize_plans (terminal_of call)) plan ≡ false
unfolding apply register input_lock claim_control mark_grid_fresh mark_input mark_grid_existing
    begin_resize resize_applied commit_resize abort_resize unregister
closed-apply_self s (Call.begin_resize t c rows cols token) plan d h =
    ground (arith, text_eq_refl t, plan_eq-token (new_plan s t c rows cols token) plan)
closed-apply_self s call plan d h = ground (arith, text_eq_refl (terminal_of call))

closed-run :
    (s : TerminalControl) (calls : List Call) (plan : TerminalResizePlan)
    → never_draws plan.token calls ≡ true
    → is_plan (s.resize_plans plan.terminal_id) plan ≡ false
    → is_plan ((run s calls).resize_plans plan.terminal_id) plan ≡ false
unfolding run
closed-run s [] plan d h = h
closed-run s (call ∷ calls) plan d h = closed-run (apply s call) calls plan (ground arith) (
    each_terminal (λ x y. is_plan x.resize_plan plan ≡ false → is_plan y.resize_plan plan ≡ false)
      (λ x e. e) s call (closed-apply_self s call plan (ground arith)) plan.terminal_id h)

closed-commit :
    (s : TerminalControl) (plan : TerminalResizePlan)
    → is_plan (s.resize_plans plan.terminal_id) plan ≡ false
    → commit_resize s plan ≡ (s, false)
unfolding commit_resize
closed-commit s plan h = ground arith

commit-closes :
    (s : TerminalControl) (plan : TerminalResizePlan)
    → (commit_resize s plan).1 ≡ true
    → is_plan ((commit_resize s plan).0.resize_plans plan.terminal_id) plan ≡ false
unfolding commit_resize
commit-closes s plan h = ground (arith, text_eq_refl plan.terminal_id)

abort-closes :
    (s : TerminalControl) (plan : TerminalResizePlan)
    → is_plan ((abort_resize s plan).resize_plans plan.terminal_id) plan ≡ false
unfolding abort_resize
abort-closes s plan = ground (arith, text_eq_refl plan.terminal_id)

-- A plan that was committed is never committed again, whatever is called afterwards, unless a later
-- resize draws the same token.
pub committed_once :
    (s : TerminalControl) (plan : TerminalResizePlan) (later : List Call)
    → (commit_resize s plan).1 ≡ true
    → never_draws plan.token later ≡ true
    → let s' = run (commit_resize s plan).0 later in commit_resize s' plan ≡ (s', false)
committed_once s plan later done fresh =
    closed-commit (run (commit_resize s plan).0 later) plan
      (closed-run (commit_resize s plan).0 later plan fresh (commit-closes s plan done))

-- A plan that `abort_resize` was called on is never committed, whatever is called afterwards, unless
-- a later resize draws the same token.
pub aborted_never_commits :
    (s : TerminalControl) (plan : TerminalResizePlan) (later : List Call)
    → never_draws plan.token later ≡ true
    → let s' = run (abort_resize s plan) later in commit_resize s' plan ≡ (s', false)
aborted_never_commits s plan later fresh =
    closed-commit (run (abort_resize s plan) later) plan
      (closed-run (abort_resize s plan) later plan fresh (abort-closes s plan))

-- the owner has joined, and owns the grid by its input or as the bootstrap
owner-joined :
    (s : TerminalControl) (t c : Text)
    → resize_owner s t ≡ some c
    → (contains (clients_of s t) c ≡ true)
      × ((s.input_owners t ≡ some c)
          ⊎ ((s.bootstrap_owners t ≡ some c) × (s.bootstrap_applied t ≡ false)))
unfolding resize_owner
owner-joined s t c own = ground arith

begin-eq :
    (s : TerminalControl) (t c : Text) (rows cols : ℕ) (token : Text)
    → resize_owner s t ≡ some c
    → s.resize_plans t ≡ none
    → let plan = new_plan s t c rows cols token in
      begin_resize s t c rows cols token
      ≡ (record s { resize_plans = put s.resize_plans t plan }, some plan)
unfolding begin_resize
begin-eq s t c rows cols token own free = ground (arith, text_eq_refl c)

begun-current :
    (s : TerminalControl) (t c : Text) (rows cols : ℕ) (token : Text)
    → IsValid (view s t)
    → resize_owner s t ≡ some c
    → s.resize_plans t ≡ none
    → let plan = new_plan s t c rows cols token in
      plan_current (record s { resize_plans = put s.resize_plans t plan }) plan ≡ true
unfolding plan_current
begun-current s t c rows cols token v own free = ground (
  arith,
  text_eq_refl t,
  text_eq_refl c,
  plan_eq_refl (new_plan s t c rows cols token),
  owner-joined s t c own,
)

-- a plan that is current when the terminal has been resized stays current
applied-current :
    (s : TerminalControl) (plan : TerminalResizePlan)
    → plan_current s plan ≡ true
    → let s' = (resize_applied s plan).0 in
      ((resize_applied s plan).1 ≡ true)
      × (plan_current s' plan ≡ true)
      × (s'.applied_plan_tokens plan.token ≡ true)
      × ((s'.bootstrap_applied plan.terminal_id || not plan.bootstrap) ≡ true)
unfolding resize_applied
applied-current s plan cur = ground (arith, text_eq_refl plan.terminal_id, text_eq_refl plan.token)

-- a current plan that has been applied is committed
committed-current :
    (s : TerminalControl) (plan : TerminalResizePlan)
    → plan_current s plan ≡ true
    → s.applied_plan_tokens plan.token ≡ true
    → (s.bootstrap_applied plan.terminal_id || not plan.bootstrap) ≡ true
    → let s' = (commit_resize s plan).0 in
      ((commit_resize s plan).1 ≡ true)
      × (s'.applied_resizes plan.terminal_id
          ≡ some (record { client_id = plan.client_id; rows = plan.rows; cols = plan.cols }))
      × (s'.resize_plans plan.terminal_id ≡ none)
unfolding commit_resize
committed-current s plan cur token mark = ground (arith, text_eq_refl plan.terminal_id)

should_resize-applied :
    (s : TerminalControl) (t c : Text) (rows cols : ℕ)
    → s.applied_resizes t ≡ some (record { client_id = c; rows = rows; cols = cols })
    → should_resize s t c rows cols ≡ false
unfolding should_resize
should_resize-applied s t c rows cols e = ground (arith, text_eq_refl c)

-- The owner of a terminal's grid with no plan open draws one up, applies it and commits it: each
-- step succeeds, the size is recorded for the owner, the plan is closed, and the same size asked
-- again by that owner needs no further resize.
pub resize_round :
    (s : TerminalControl) (t c : Text) (rows cols : ℕ) (token : Text)
    → IsValid (view s t)
    → resize_owner s t ≡ some c
    → s.resize_plans t ≡ none
    → let plan = new_plan s t c rows cols token in
      let begun = (begin_resize s t c rows cols token).0 in
      let applied = (resize_applied begun plan).0 in
      let committed = (commit_resize applied plan).0 in
      ((begin_resize s t c rows cols token).1 ≡ some plan)
      × ((resize_applied begun plan).1 ≡ true)
      × ((commit_resize applied plan).1 ≡ true)
      × (committed.applied_resizes t ≡ some (record { client_id = c; rows = rows; cols = cols }))
      × (committed.resize_plans t ≡ none)
      × (should_resize committed t c rows cols ≡ false)
resize_round s t c rows cols token v own free =
    let plan = new_plan s t c rows cols token in
    let opened = record s { resize_plans = put s.resize_plans t plan } in
    let a = applied-current opened plan (begun-current s t c rows cols token v own free) in
    let k = committed-current (resize_applied opened plan).0 plan a.1 a.2 a.3 in
    let done = (commit_resize (resize_applied opened plan).0 plan).0 in
    rw (begin-eq s t c rows cols token own free)
      (refl, a.0, k.0, k.1, k.2, should_resize-applied done t c rows cols k.1)
