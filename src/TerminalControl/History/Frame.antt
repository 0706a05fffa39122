-- ===== src/TerminalControl/History/Frame.antt =====
-- A call touches the state of its own terminal only.
use termroom.Prelude.{
  ℕ, Bool, false, Text, text_eq, text_eq_iff, ◌≡◌, ◌≢◌, inl, inr, sym, subst, arith, Text-cases,
}
use termroom.TerminalControl.State.{TerminalControl}
use termroom.TerminalControl.Input.{
  register, input_lock, claim_control, mark_grid_fresh, mark_input, mark_grid_existing,
}
use termroom.TerminalControl.Resize.{begin_resize, resize_applied, commit_resize, abort_resize}
use termroom.TerminalControl.Leave.{unregister}
use termroom.TerminalControl.History.{Terminal, view, Call, terminal_of, apply}

view-unregister :
    (locked : ℕ → Bool) (s : TerminalControl) (t c u : Text)
    → text_eq t u ≡ false
    → view (unregister locked s t c) u ≡ view s u
unfolding unregister
view-unregister locked s t c u h = ground arith

-- A call leaves everything that the state holds under any other terminal's identifier as it was.
pub view-apply_ne :
    (s : TerminalControl) (call : Call) (u : Text)
    → terminal_of call ≢ u
    → view (apply s call) u ≡ view s u
unfolding apply register input_lock claim_control mark_grid_fresh mark_input mark_grid_existing
    begin_resize resize_applied commit_resize abort_resize
view-apply_ne s (Call.unregister locked t c) u h =
    view-unregister locked s t c u (ground (arith, text_eq_iff t u))
view-apply_ne s call u h = ground (arith, text_eq_iff (terminal_of call) u)

-- To show a relation between a terminal before a call and after it, show it of the call's own
-- terminal, and that it is reflexive.
pub each_terminal :
    (R : Terminal → Terminal → Type 0)
    → ((x : Terminal) → R x x)
    → (s : TerminalControl) (call : Call)
    → R (view s (terminal_of call)) (view (apply s call) (terminal_of call))
    → (t : Text) → R (view s t) (view (apply s call) t)
each_terminal R same s call own t = elim (Text-cases (terminal_of call) t) [
  | inl e ↦ subst (λ u. R (view s u) (view (apply s call) u)) e own
  | inr n ↦ subst (R (view s t)) (sym (view-apply_ne s call t n)) (same (view s t))
]
