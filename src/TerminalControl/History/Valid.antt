-- ===== src/TerminalControl/History/Valid.antt =====
-- What holds of every terminal after any history of calls.
use termroom.Prelude.{
  ℕ, ◌≤◌, Bool, true, false, Option, none, some, List, [], ◌∷◌, ◌++◌, Text, text_eq, text_eq_refl,
  text_eq_iff, contains, or_else, ◌≡◌, ◌≢◌, refl, arith, contains-append,
}
use termroom.Prelude.Dict.{Dict, pop}
use termroom.TerminalControl.State.{
  TerminalControl, TerminalResizePlan, AppliedResize, init, is_text, plan_eq, is_plan, remove,
  set_first, clients_of,
}
use termroom.TerminalControl.Input.{
  register, input_lock, claim_control, mark_grid_fresh, mark_input, mark_grid_existing,
}
use termroom.TerminalControl.Resize.{begin_resize, resize_applied, commit_resize, abort_resize}
use termroom.TerminalControl.Leave.{unregister}
use termroom.TerminalControl.History.{Terminal, view, Call, terminal_of, apply, run}
use termroom.TerminalControl.History.Frame.{each_terminal}

-- a client that holds a role, if there is one, has joined
abbrev pub joined : Option Text → Option (List Text) → Bool
joined none clients = true
joined (some c) clients = contains (or_else clients []) c

abbrev pub applied_joined : Option AppliedResize → Option (List Text) → Bool
applied_joined none clients = true
applied_joined (some a) clients = contains (or_else clients []) a.client_id

abbrev pub is_applied_by : Option AppliedResize → Text → Bool
is_applied_by none c = false
is_applied_by (some a) c = text_eq a.client_id c

abbrev pub is_bootstrap : Option TerminalResizePlan → Bool
is_bootstrap none = false
is_bootstrap (some plan) = plan.bootstrap

abbrev pub plan_revision : Option TerminalResizePlan → ℕ
plan_revision none = 0
plan_revision (some plan) = plan.revision

pub record IsValid (x : Terminal) : Type 0 where
  -- a terminal with no client has no entry
  pub clients_kept : x.clients ≢ some []
  pub controller_joined : joined x.controller x.clients ≡ true
  pub input_owner_joined : joined x.input_owner x.clients ≡ true
  pub bootstrap_owner_joined : joined x.bootstrap_owner x.clients ≡ true
  pub applied_resize_joined : applied_joined x.applied_resize x.clients ≡ true
  -- the mark of an applied bootstrap belongs to a bootstrap plan that is still open
  pub bootstrap_applied_open : x.bootstrap_applied ≡ true → is_bootstrap x.resize_plan ≡ true
  pub plan_revision_past : plan_revision x.resize_plan ≤ or_else x.input_revision 0

pub contains-remove :
    (xs : List Text) (c x : Text) → text_eq c x ≡ false → contains (remove xs c) x ≡ contains xs x
unfolding contains remove
contains-remove [] c x h = refl
contains-remove (y ∷ xs) c x h =
    ground (arith, contains-remove xs c x, text_eq_iff y c, text_eq_iff y x, text_eq_iff c x)

joined-append :
    (o : Option Text) (clients : Option (List Text)) (c : Text)
    → joined o clients ≡ true
    → joined o (some (or_else clients [] ++ c ∷ [])) ≡ true
joined-append none clients c h = refl
joined-append (some x) clients c h = ground (arith, contains-append (or_else clients []) c x)

applied_joined-append :
    (o : Option AppliedResize) (clients : Option (List Text)) (c : Text)
    → applied_joined o clients ≡ true
    → applied_joined o (some (or_else clients [] ++ c ∷ [])) ≡ true
applied_joined-append none clients c h = refl
applied_joined-append (some x) clients c h =
    ground (arith, contains-append (or_else clients []) c x.client_id)

contains-append_self : (xs : List Text) (c : Text) → contains (xs ++ c ∷ []) c ≡ true
contains-append_self xs c = ground (arith, contains-append xs c c, text_eq_refl c)

append-ne-nil : (xs : List Text) (c : Text) → (xs ++ c ∷ []) ≢ []
append-ne-nil [] c h = cc
append-ne-nil (x ∷ xs) c h = cc

joined-remove :
    (o : Option Text) (xs : List Text) (c : Text)
    → joined o (some xs) ≡ true
    → is_text o c ≡ false
    → joined o (some (remove xs c)) ≡ true
joined-remove none xs c h e = refl
joined-remove (some x) xs c h e =
    ground (arith, contains-remove xs c x, text_eq_iff x c, text_eq_iff c x)

applied_joined-remove :
    (o : Option AppliedResize) (xs : List Text) (c : Text)
    → applied_joined o (some xs) ≡ true
    → is_applied_by o c ≡ false
    → applied_joined o (some (remove xs c)) ≡ true
applied_joined-remove none xs c h e = refl
applied_joined-remove (some x) xs c h e =
    ground (
      arith,
      contains-remove xs c x.client_id,
      text_eq_iff x.client_id c,
      text_eq_iff c x.client_id,
    )

-- once nobody is left, nobody holds a role
joined-nil : (o : Option Text) → joined o (some []) ≡ true → o ≡ none
unfolding contains
joined-nil none h = refl
joined-nil (some x) h = cc

pub eq_of_plan_eq : (p q : TerminalResizePlan) → plan_eq p q ≡ true → p ≡ q
unfolding plan_eq
eq_of_plan_eq p q h = ground (
  arith,
  text_eq_iff p.terminal_id q.terminal_id,
  text_eq_iff p.client_id q.client_id,
  text_eq_iff p.token q.token,
)

-- a plan is live only as the very plan that is stored
pub eq_of_is_plan :
    (o : Option TerminalResizePlan) (p : TerminalResizePlan) → is_plan o p ≡ true → o ≡ some p
eq_of_is_plan none p h = cc
eq_of_is_plan (some q) p h = cc (eq_of_plan_eq q p h)

joined-set_first :
    (d : Dict Text) (t : Text) (clients : Option (List Text))
    → joined (d t) clients ≡ true
    → joined (set_first d t (or_else clients []) t) clients ≡ true
unfolding contains
joined-set_first d t none h = h
joined-set_first d t (some []) h = h
joined-set_first d t (some (c ∷ xs)) h = ground (arith, text_eq_refl t, text_eq_refl c)

module _ (s : TerminalControl) (t : Text) (v : IsValid (view s t)) where
  register-IsValid : (d c : Text) → IsValid (view (register s t d c) t)
  unfolding register
  register-IsValid d c = ground (
    arith,
    text_eq_refl t,
    append-ne-nil (clients_of s t) c,
    contains-append_self (clients_of s t) c,
    joined-append (s.controllers t) (s.clients t) c,
    joined-append (s.input_owners t) (s.clients t) c,
    joined-append (s.bootstrap_owners t) (s.clients t) c,
    applied_joined-append (s.applied_resizes t) (s.clients t) c,
  )

  claim_control-IsValid : (c : Text) → IsValid (view (claim_control s t c) t)
  unfolding claim_control
  claim_control-IsValid c = ground (arith, text_eq_refl t)

  mark_grid_fresh-IsValid : (c : Text) → IsValid (view (mark_grid_fresh s t c) t)
  unfolding mark_grid_fresh
  mark_grid_fresh-IsValid c = ground (arith, text_eq_refl t)

  mark_input-IsValid : (c d : Text) → IsValid (view (mark_input s t c d) t)
  unfolding mark_input
  mark_input-IsValid c d = ground (arith, text_eq_refl t)

  mark_grid_existing-IsValid : IsValid (view (mark_grid_existing s t) t)
  unfolding mark_grid_existing
  mark_grid_existing-IsValid = ground (arith, text_eq_refl t)

  begin_resize-IsValid :
      (c : Text) (rows cols : ℕ) (token : Text)
      → IsValid (view (begin_resize s t c rows cols token).0 t)
  unfolding begin_resize
  begin_resize-IsValid c rows cols token = ground (arith, text_eq_refl t)

module _ (s : TerminalControl) (plan : TerminalResizePlan)
    (v : IsValid (view s plan.terminal_id)) where
  resize_applied-IsValid : IsValid (view (resize_applied s plan).0 plan.terminal_id)
  unfolding resize_applied
  resize_applied-IsValid =
      ground
        (arith, text_eq_refl plan.terminal_id, eq_of_is_plan (s.resize_plans plan.terminal_id) plan)

  commit_resize-IsValid : IsValid (view (commit_resize s plan).0 plan.terminal_id)
  unfolding commit_resize
  commit_resize-IsValid =
      ground
        (arith, text_eq_refl plan.terminal_id, eq_of_is_plan (s.resize_plans plan.terminal_id) plan)

  abort_resize-IsValid : IsValid (view (abort_resize s plan) plan.terminal_id)
  unfolding abort_resize
  abort_resize-IsValid = ground (
    arith,
    joined-set_first s.bootstrap_owners plan.terminal_id (s.clients plan.terminal_id),
    text_eq_refl plan.terminal_id,
    eq_of_is_plan (s.resize_plans plan.terminal_id) plan,
  )

module _ (locked : ℕ → Bool) (s : TerminalControl) (t : Text) (c : Text)
    (v : IsValid (view s t)) where
  unregister-IsValid : IsValid (view (unregister locked s t c) t)
  unfolding unregister
  unregister-IsValid = ground (
    arith,
    text_eq_refl t,
    joined-remove (s.controllers t) (clients_of s t) c,
    joined-remove (s.input_owners t) (clients_of s t) c,
    joined-remove (s.bootstrap_owners t) (clients_of s t) c,
    applied_joined-remove (s.applied_resizes t) (clients_of s t) c,
    joined-nil (s.controllers t),
    joined-set_first (pop s.bootstrap_owners t) t (some (remove (clients_of s t) c)),
  )

init-IsValid : (t : Text) → IsValid (view init t)
unfolding init
init-IsValid t = ground arith

apply-IsValid_self :
    (s : TerminalControl) (call : Call)
    → IsValid (view s (terminal_of call))
    → IsValid (view (apply s call) (terminal_of call))
unfolding apply input_lock
apply-IsValid_self s (Call.register t d c) v = register-IsValid s t v d c
apply-IsValid_self s (Call.input_lock t l) v = ground (arith, v)
apply-IsValid_self s (Call.claim_control t c) v = claim_control-IsValid s t v c
apply-IsValid_self s (Call.mark_grid_fresh t c) v = mark_grid_fresh-IsValid s t v c
apply-IsValid_self s (Call.mark_input t c d) v = mark_input-IsValid s t v c d
apply-IsValid_self s (Call.mark_grid_existing t) v = mark_grid_existing-IsValid s t v
apply-IsValid_self s (Call.begin_resize t c rows cols token) v =
    begin_resize-IsValid s t v c rows cols token
apply-IsValid_self s (Call.resize_applied plan) v = resize_applied-IsValid s plan v
apply-IsValid_self s (Call.commit_resize plan) v = commit_resize-IsValid s plan v
apply-IsValid_self s (Call.abort_resize plan) v = abort_resize-IsValid s plan v
apply-IsValid_self s (Call.unregister locked t c) v = unregister-IsValid locked s t c v

-- Every call keeps every terminal valid.
pub apply-IsValid :
    (s : TerminalControl) (call : Call) (t : Text)
    → IsValid (view s t)
    → IsValid (view (apply s call) t)
apply-IsValid s call =
    each_terminal (λ x y. IsValid x → IsValid y) (λ x v. v) s call (apply-IsValid_self s call)

run-IsValid_from :
    (s : TerminalControl) (calls : List Call) (t : Text)
    → IsValid (view s t)
    → IsValid (view (run s calls) t)
unfolding run
run-IsValid_from s [] t v = v
run-IsValid_from s (call ∷ calls) t v =
    run-IsValid_from (apply s call) calls t (apply-IsValid s call t v)

-- After any history of calls from the initial state, every terminal is valid.
pub run-IsValid : (calls : List Call) (t : Text) → IsValid (view (run init calls) t)
run-IsValid calls t = run-IsValid_from init calls t (init-IsValid t)
