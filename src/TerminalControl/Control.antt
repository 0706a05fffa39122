-- ===== src/TerminalControl/Control.antt =====
-- Control of a terminal's input: who has it, and the revision by which browsers follow it.
use termroom.Prelude.{
  ℕ, ◌+◌, ◌≤◌, Bool, true, false, ◌&&◌, not, Option, none, some, List, [], ◌∷◌, Text, text_eq,
  text_eq_refl, eq_of_text_eq, contains, or_else, if◌then◌else◌, ◌≡◌, refl, subst, arith, ◌∙◌,
}
use termroom.TerminalControl.State.{TerminalControl, init, is_text, clients_of}
use termroom.TerminalControl.Input.{
  register, input_lock, can_input, claim_control, mark_grid_fresh, mark_input, mark_grid_existing,
}
use termroom.TerminalControl.Resize.{begin_resize, resize_applied, commit_resize, abort_resize}
use termroom.TerminalControl.Leave.{unregister}
use termroom.TerminalControl.History.{Terminal, view, Call, terminal_of, apply, run}
use termroom.TerminalControl.History.Frame.{each_terminal}
use termroom.TerminalControl.History.Valid.{IsValid, joined, run-IsValid, apply-IsValid}

abbrev pub same_text : Option Text → Option Text → Bool
same_text none none = true
same_text none (some y) = false
same_text (some x) none = false
same_text (some x) (some y) = text_eq x y

abbrev pub changes : Option Text → Option Text → ℕ
changes a b = if same_text a b then 0 else 1

abbrev pub revision : Terminal → ℕ
revision x = or_else x.control_revision 0

-- The revision counts the changes of controller.
abbrev pub Counts : Terminal → Terminal → Type 0
Counts x y = revision y ≡ revision x + changes x.controller y.controller

Counts-refl : (x : Terminal) → Counts x x
Counts-refl x = go x.controller
  where
    go : (o : Option Text) → revision x ≡ revision x + changes o o
    go none = omega arith
    go (some c) = ground (arith, text_eq_refl c)

apply-Counts_self :
    (s : TerminalControl) (call : Call)
    → IsValid (view s (terminal_of call))
    → Counts (view s (terminal_of call)) (view (apply s call) (terminal_of call))
unfolding apply register input_lock claim_control mark_grid_fresh mark_input mark_grid_existing
    begin_resize resize_applied commit_resize abort_resize unregister contains
apply-Counts_self s (Call.register t d c) v = ground (arith, text_eq_refl t, Counts-refl (view s t))
apply-Counts_self s (Call.claim_control t c) v =
    ground (arith, text_eq_refl t, Counts-refl (view s t))
apply-Counts_self s call v =
    ground (arith, text_eq_refl (terminal_of call), Counts-refl (view s (terminal_of call)))

-- One call moves a terminal's control revision by one if it changes the controller, and not at all
-- if it does not: joining, claiming, leaving, and every other call, of this terminal or another.
pub apply-Counts :
    (s : TerminalControl) (call : Call) (t : Text)
    → IsValid (view s t)
    → Counts (view s t) (view (apply s call) t)
apply-Counts s call t =
    each_terminal (λ x y. IsValid x → Counts x y) (λ x _. Counts-refl x) s call
      (apply-Counts_self s call) t

pub revision-run :
    (s : TerminalControl) (calls : List Call) (t : Text)
    → IsValid (view s t)
    → revision (view s t) ≤ revision (view (run s calls) t)
unfolding run
revision-run s [] t v = omega arith
revision-run s (call ∷ calls) t v =
    omega (
      arith,
      apply-Counts s call t v,
      revision-run (apply s call) calls t (apply-IsValid s call t v),
    )

eq_of_same_text : (a b : Option Text) → same_text a b ≡ true → a ≡ b
eq_of_same_text none none h = refl
eq_of_same_text none (some y) h = cc
eq_of_same_text (some x) none h = cc
eq_of_same_text (some x) (some y) h = cc (eq_of_text_eq x y h)

unchanged : (x y : Terminal) → Counts x y → revision y ≤ revision x → x.controller ≡ y.controller
unchanged x y c le = eq_of_same_text x.controller y.controller (ground (arith, c))

same_revision_from :
    (s : TerminalControl) (calls : List Call) (t : Text)
    → IsValid (view s t)
    → revision (view (run s calls) t) ≡ revision (view s t)
    → s.controllers t ≡ (run s calls).controllers t
unfolding run
same_revision_from s [] t v e = refl
same_revision_from s (call ∷ calls) t v e =
    let s' = apply s call in
    let v' = apply-IsValid s call t v in
    let counted = apply-Counts s call t v in
    let later = revision-run s' calls t v' in
    unchanged (view s t) (view s' t) counted (omega arith)
    ∙ same_revision_from s' calls t v' (omega arith)

-- Two moments of a history at which a terminal shows the same control revision have the same
-- controller, or both have none: a browser that knows the revision knows who controls.
pub same_revision_same_controller :
    (calls later : List Call) (t : Text)
    → revision (view (run (run init calls) later) t) ≡ revision (view (run init calls) t)
    → (run init calls).controllers t ≡ (run (run init calls) later).controllers t
same_revision_same_controller calls later t e =
    same_revision_from (run init calls) later t (run-IsValid calls t) e

controller_eq : (o : Option Text) (c x : Text) → is_text o c ≡ true → is_text o x ≡ text_eq c x
controller_eq none c x h = cc
controller_eq (some y) c x h = rw (eq_of_text_eq y c h)

admitted-joined :
    (o : Option Text) (clients : Option (List Text)) (c : Text)
    → is_text o c ≡ true
    → joined o clients ≡ true
    → contains (or_else clients []) c ≡ true
admitted-joined none clients c h j = cc
admitted-joined (some y) clients c h j =
    subst (λ z. contains (or_else clients []) z ≡ true) (eq_of_text_eq y c h) j

-- A claim by a client that has joined gives it the control, refuses the input of every other
-- client, and takes the grid from an input owner unless the claimant was in control already. A
-- claim by anybody else changes neither.
pub can_input-claim_control :
    (s : TerminalControl) (t c x : Text)
    → let s' = claim_control s t c in
      let member = contains (clients_of s t) c in
      (can_input s' t x ≡ (if member then text_eq c x else can_input s t x))
      × (s'.input_owners t ≡ (if member && not (can_input s t c) then none else s.input_owners t))
unfolding claim_control can_input
can_input-claim_control s t c x = (
  ground (arith, text_eq_refl t, controller_eq (s.controllers t) c x),
  ground (arith, text_eq_refl t),
)

-- After any history, a client whose input is admitted has joined the terminal, and no second
-- client's input is admitted.
pub can_input_unique :
    (calls : List Call) (t c x : Text)
    → can_input (run init calls) t c ≡ true
    → (contains (clients_of (run init calls) t) c ≡ true)
      × (can_input (run init calls) t x ≡ text_eq c x)
unfolding can_input
can_input_unique calls t c x h =
    let s = run init calls in
    let v = run-IsValid calls t in
    (
      admitted-joined (s.controllers t) (s.clients t) c h v.controller_joined,
      controller_eq (s.controllers t) c x h,
    )
