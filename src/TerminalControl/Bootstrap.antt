-- ===== src/TerminalControl/Bootstrap.antt =====
-- A grid that was bootstrapped once: the first browser's resize before any input.
use termroom.Prelude.{
  Bool, true, false, ◌&&◌, ◌||◌, not, some, List, [], ◌∷◌, Text, text_eq, text_eq_refl, is_some,
  ◌≡◌, inl, inr, sym, subst, arith, Text-cases,
}
use termroom.TerminalControl.State.{TerminalControl, TerminalResizePlan, is_plan}
use termroom.TerminalControl.Input.{
  register, input_lock, claim_control, mark_grid_fresh, mark_input, mark_grid_existing,
}
use termroom.TerminalControl.Resize.{
  resize_owner, begin_resize, resize_applied, commit_resize, abort_resize,
}
use termroom.TerminalControl.Leave.{unregister}
use termroom.TerminalControl.History.{Terminal, view, Call, terminal_of, apply, run}
use termroom.TerminalControl.History.Frame.{view-apply_ne}

-- no client can take the grid as its bootstrap any more
abbrev pub is_spent : Terminal → Bool
is_spent x = not x.bootstrap_pending && (x.bootstrap_applied || not (is_some x.bootstrap_owner))

abbrev pub refreshes : Text → Call → Bool
refreshes t (Call.mark_grid_fresh u c) = text_eq u t
refreshes t _ = false

abbrev pub never_refreshes : Text → List Call → Bool
never_refreshes t [] = true
never_refreshes t (call ∷ calls) = not (refreshes t call) && never_refreshes t calls

spent-apply_self :
    (s : TerminalControl) (call : Call)
    → refreshes (terminal_of call) call ≡ false
    → is_spent (view s (terminal_of call)) ≡ true
    → is_spent (view (apply s call) (terminal_of call)) ≡ true
unfolding apply register input_lock claim_control mark_grid_fresh mark_input mark_grid_existing
    begin_resize resize_applied commit_resize abort_resize unregister
spent-apply_self s (Call.mark_grid_fresh t c) n h = ground (arith, text_eq_refl t)
spent-apply_self s call n h = ground (arith, text_eq_refl (terminal_of call))

spent-apply :
    (s : TerminalControl) (call : Call) (t : Text)
    → refreshes t call ≡ false
    → is_spent (view s t) ≡ true
    → is_spent (view (apply s call) t) ≡ true
spent-apply s call t n h = elim (Text-cases (terminal_of call) t) [
  | inl e ↦
      subst (λ u. is_spent (view (apply s call) u) ≡ true) e
        (spent-apply_self s call (subst (λ u. refreshes u call ≡ false) (sym e) n)
          (subst (λ u. is_spent (view s u) ≡ true) (sym e) h))
  | inr d ↦ subst (λ x. is_spent x ≡ true) (sym (view-apply_ne s call t d)) h
]

spent-run :
    (s : TerminalControl) (calls : List Call) (t : Text)
    → never_refreshes t calls ≡ true
    → is_spent (view s t) ≡ true
    → is_spent (view (run s calls) t) ≡ true
unfolding run
spent-run s [] t n h = h
spent-run s (call ∷ calls) t n h =
    spent-run (apply s call) calls t (ground arith) (spent-apply s call t (ground arith) h)

spent-resize_applied :
    (s : TerminalControl) (plan : TerminalResizePlan)
    → is_plan (s.resize_plans plan.terminal_id) plan ≡ true
    → plan.bootstrap ≡ true
    → is_spent (view (resize_applied s plan).0 plan.terminal_id) ≡ true
unfolding resize_applied
spent-resize_applied s plan live b = ground (arith, text_eq_refl plan.terminal_id)

spent-owner :
    (s : TerminalControl) (t c : Text)
    → is_spent (view s t) ≡ true
    → resize_owner s t ≡ some c
    → s.input_owners t ≡ some c
unfolding resize_owner
spent-owner s t c h own = ground arith

-- Once a live bootstrap plan has been applied to the terminal, then, until the grid is announced as
-- fresh again, only a client that has typed owns the grid, whatever is called: committing or
-- aborting the plan, joining and leaving included.
pub bootstrap_once :
    (s : TerminalControl) (plan : TerminalResizePlan) (later : List Call) (c : Text)
    → is_plan (s.resize_plans plan.terminal_id) plan ≡ true
    → plan.bootstrap ≡ true
    → never_refreshes plan.terminal_id later ≡ true
    → resize_owner (run (resize_applied s plan).0 later) plan.terminal_id ≡ some c
    → (run (resize_applied s plan).0 later).input_owners plan.terminal_id ≡ some c
bootstrap_once s plan later c live b n own =
    let s' = run (resize_applied s plan).0 later in
    spent-owner s' plan.terminal_id c
      (spent-run (resize_applied s plan).0 later plan.terminal_id n
        (spent-resize_applied s plan live b))
      own
