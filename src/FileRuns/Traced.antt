-- ===== src/FileRuns/Traced.antt =====
-- The operations of `FileRunManager` change the store by transactions only (termroom/file_runs.py).
pub mod Start
use termroom.Prelude.{
  ◌-◌, Bool, true, false, ◌&&◌, ◌||◌, not, Option, none, some, List, Text, if◌then◌else◌, ◌≡◌, inl,
  inr, refl, subst, arith, Bool-cases, Option-cases,
}
use termroom.Prelude.Result.{Result, ok, err}
use termroom.FileRuns.Table.{RunState, preparing, is_terminal, same_state, FileRun, Store, find}
use termroom.FileRuns.Store.{StoreError, Clock, ClaimPayload, Claimed, claim_file_run}
use termroom.FileRuns.Transition.{Changes, transition_file_run}
use termroom.FileRuns.Act.{
  ◌>>=◌, Fault, conflict, remote_fault, local_fault, other_fault, Raised, Act, pure, throw, outside,
  catch, handled, next_act, updated, transition, tie, claimed_by, claim,
}
use termroom.FileRuns.Steps.{
  all_active, Step, claims, ties, changes, Reaches, here, next, reaches_trans,
}
use termroom.FileRuns.Manager.{
  is_uuid, Observation, state_of, live, get, observed_changes, applied, apply_observation,
  reconcile, seen, stop, stop_changes, kill, forced,
}

-- a call leaves a store that transactions reach
pub record IsTraced (clock : Clock) {A : Type 0} (m : Act A) : Type 0 where
  pub trace : (s : Store) → Reaches clock s (m s).0

module _ (clock : Clock) where
  next_act-Reaches :
      {A B : Type 0} (s : Store) (f : A → Act B) (x : Store × Result Raised A)
      → ((a : A) → IsTraced clock (f a))
      → Reaches clock s x.0
      → Reaches clock s (next_act f x).0
  next_act-Reaches s f (t, ok a) h r = reaches_trans r ((h a).trace t)
  next_act-Reaches s f (t, err e) h r = r

  handled-Reaches :
      {A : Type 0} (s : Store) (handler : Raised → Act A) (x : Store × Result Raised A)
      → ((e : Raised) → IsTraced clock (handler e))
      → Reaches clock s x.0
      → Reaches clock s (handled handler x).0
  handled-Reaches s handler (t, ok a) h r = r
  handled-Reaches s handler (t, err e) h r = reaches_trans r ((h e).trace t)

  pub then-IsTraced :
      {A B : Type 0} {m : Act A} {f : A → Act B}
      → IsTraced clock m
      → ((a : A) → IsTraced clock (f a))
      → IsTraced clock (m >>= f)
  then-IsTraced {m = m} {f = f} h k = record {
    trace = λ s. next_act-Reaches s f (m s) k (h.trace s);
  }

  pub catch-IsTraced :
      {A : Type 0} {m : Act A} {handler : Raised → Act A}
      → IsTraced clock m
      → ((e : Raised) → IsTraced clock (handler e))
      → IsTraced clock (catch m handler)
  catch-IsTraced {m = m} {handler = handler} h k = record {
    trace = λ s. handled-Reaches s handler (m s) k (h.trace s);
  }

  pub pure-IsTraced : {A : Type 0} {a : A} → IsTraced clock (pure a)
  pure-IsTraced = record { trace = λ s. here }

  pub throw-IsTraced : {A : Type 0} {e : Raised} → IsTraced clock (throw {A = A} e)
  throw-IsTraced = record { trace = λ s. here }

  pub outside-IsTraced : {A : Type 0} (r : Result Fault A) → IsTraced clock (outside r)
  outside-IsTraced (ok a) = record { trace = λ s. here }
  outside-IsTraced (err e) = record { trace = λ s. here }

  pub branch-IsTraced :
      {A : Type 0} (b : Bool) {m k : Act A}
      → IsTraced clock m
      → IsTraced clock k
      → IsTraced clock (if b then m else k)
  branch-IsTraced true h g = h
  branch-IsTraced false h g = g

  updated-Reaches :
      {A : Type 0} (s : Store) (x : Result StoreError (A × Store))
      → ((a : A) (t : Store) → x ≡ ok (a, t) → Step clock s t)
      → Reaches clock s (updated s x).0
  updated-Reaches s (ok (a, t)) h = next here (h a t refl)
  updated-Reaches s (err e) h = here

  pub transition-IsTraced :
      (now id : Text) (expected : List RunState) (c : Changes)
      → all_active expected ≡ true
      → IsTraced clock (transition clock now id expected c)
  unfolding transition
  transition-IsTraced now id expected c a = record {
    trace = λ s.
        updated-Reaches s (transition_file_run clock now id expected c s)
          (λ b t h. changes now id expected c s t b a h);
  }

  pub tie-IsTraced : (id terminal_id : Text) → IsTraced clock (tie id terminal_id)
  unfolding tie
  tie-IsTraced id terminal_id = record { trace = λ s. next here (ties id terminal_id s) }

  claimed_by-Reaches :
      (s : Store) (x : Result StoreError Claimed)
      → ((c : Claimed) → x ≡ ok c → Step clock s c.store)
      → Reaches clock s (claimed_by s x).0
  claimed_by-Reaches s (ok c) h = next here (h c refl)
  claimed_by-Reaches s (err e) h = here

  pub claim-IsTraced : (now : Text) (p : ClaimPayload) → IsTraced clock (claim now p)
  unfolding claim
  claim-IsTraced now p = record {
    trace = λ s. claimed_by-Reaches s (claim_file_run now p s) (λ c h. claims now p s c h);
  }

  module _ (now : Text) where
    get-Reaches : (id : Text) (s : Store) → Reaches clock s (get clock now id s).0
    unfolding get
    get-Reaches id s = elim (Bool-cases (is_uuid id)) [
      | inr n ↦ subst (Reaches clock s) (ground (arith, n)) here
      | inl u ↦ elim (Option-cases (find s.runs id)) [
        | inl n ↦ subst (Reaches clock s) (ground (arith, u, n)) here
        | inr r ↦ subst (Reaches clock s) (ground (arith, u, r.1)) here
      ]
    ]

    pub get-IsTraced : (id : Text) → IsTraced clock (get clock now id)
    get-IsTraced id = record { trace = get-Reaches id }

    write-IsTraced : (id : Text) (c : Changes) → IsTraced clock (transition clock now id live c)
    unfolding all_active
    write-IsTraced id c = transition-IsTraced now id live c refl

    applied-IsTraced :
        (r : FileRun) (o : Observation) (x : Option RunState)
        → IsTraced clock (applied clock now r o x)
    applied-IsTraced r o none = pure-IsTraced
    applied-IsTraced r o (some state) =
        branch-IsTraced (is_terminal r.state || same_state state preparing) pure-IsTraced (
          then-IsTraced (write-IsTraced r.id (observed_changes clock now r o state))
            (λ b. pure-IsTraced))

    pub apply_observation-IsTraced :
        (r : FileRun) (o : Observation) → IsTraced clock (apply_observation clock now r o)
    unfolding apply_observation
    apply_observation-IsTraced r o = applied-IsTraced r o (state_of o.state)

    seen-IsTraced :
        (r : FileRun) (x : Result Fault Observation) → IsTraced clock (seen clock now r x)
    seen-IsTraced r (ok o) =
        then-IsTraced (apply_observation-IsTraced r o)
          (λ a. then-IsTraced (get-IsTraced r.id) (λ b. pure-IsTraced))
    seen-IsTraced r (err remote_fault) = pure-IsTraced
    seen-IsTraced r (err conflict) = throw-IsTraced
    seen-IsTraced r (err local_fault) = throw-IsTraced
    seen-IsTraced r (err other_fault) = throw-IsTraced

    pub reconcile-IsTraced :
        (id : Text) (x : Result Fault Observation) → IsTraced clock (reconcile clock now id x)
    unfolding reconcile
    reconcile-IsTraced id x =
        then-IsTraced (get-IsTraced id)
          (λ r. branch-IsTraced (is_terminal r.state) pure-IsTraced (seen-IsTraced r x))

    pub stop-IsTraced :
        (id : Text) (first : Result Fault Observation) (sent : Result Fault Bool)
        (second : Result Fault Observation)
        → IsTraced clock (stop clock now id first sent second)
    unfolding stop
    stop-IsTraced id first sent second = then-IsTraced (reconcile-IsTraced id first) (λ before.
        branch-IsTraced (is_terminal before.run.state) pure-IsTraced (
          then-IsTraced (outside-IsTraced sent) (λ confirmed.
            branch-IsTraced (not confirmed)
              (then-IsTraced (reconcile-IsTraced id second) (λ after.
                branch-IsTraced (is_terminal after.run.state) pure-IsTraced throw-IsTraced))
              (then-IsTraced (write-IsTraced id (stop_changes clock now before.run)) (λ requested.
                then-IsTraced (reconcile-IsTraced id second) (λ after. pure-IsTraced))))))

    pub kill-IsTraced :
        (id : Text) (first : Result Fault Observation) (sent : Result Fault Bool)
        (second : Result Fault Observation)
        → IsTraced clock (kill clock now id first sent second)
    unfolding kill
    kill-IsTraced id first sent second = then-IsTraced (reconcile-IsTraced id first) (λ before.
        branch-IsTraced (is_terminal before.run.state) pure-IsTraced (
          then-IsTraced (outside-IsTraced sent) (λ killed.
            then-IsTraced
              (branch-IsTraced killed (write-IsTraced id (stop_changes clock now before.run))
                pure-IsTraced)
              (λ requested. then-IsTraced (reconcile-IsTraced id second) (λ after.
                branch-IsTraced (killed && not (is_terminal after.run.state))
                  (then-IsTraced (write-IsTraced id (forced clock now)) (λ ended. get-IsTraced id))
                  pure-IsTraced)))))
