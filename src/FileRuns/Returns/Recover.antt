-- ===== src/FileRuns/Returns/Recover.antt =====
-- What `start` does with an exception (termroom/file_runs.py).
use termroom.Prelude.{
  Bool, true, false, ◌&&◌, some, [], ◌∷◌, Text, codes, text_eq, ◌≡◌, inl, inr, refl, ap, arith,
  Bool-cases,
}
use termroom.Prelude.Result.{Result, ok, err}
use termroom.FileRuns.Table.{preparing, FileRun, Store}
use termroom.FileRuns.Store.{Clock}
use termroom.FileRuns.Transition.{Changes, assigns, changed, one_of, transition_file_run}
use termroom.FileRuns.Act.{
  Fault, conflict, remote_fault, local_fault, other_fault, faults, Act, ◌>>=◌, pure, updated,
  transition,
}
use termroom.FileRuns.Steps.{all_active}
use termroom.FileRuns.Manager.{
  is_uuid, is_remote, Observation, state_of, get, applied, apply_observation, Reconciled, seen,
}
use termroom.FileRuns.Start.{
  Request, Started, without_connection, failure, unknown_status, settle, told_by, ask_backend,
  backend_failed, recover,
}
use termroom.FileRuns.Returns.{
  pure-Gives, then-Gives, true-Gives, false-Gives, Throws, throw-Throws,
}
use termroom.FileRuns.Returns.Reconcile.{
  Holds, Leaves, get-Gives, transition-Written, applied-Performed,
}

-- not an exception that `start` lets pass
abbrev pub is_caught : Fault → Bool
is_caught other_fault = false
is_caught _ = true

abbrev pub expected : {A : Type 0} → Result Fault A → Bool
expected (err fault) = is_caught fault
expected (ok a) = true

-- an answer, or an exception of the backend itself
abbrev pub backend_only : Result Fault Observation → Bool
backend_only (err conflict) = false
backend_only (err other_fault) = false
backend_only _ = true

abbrev pub same_fault : Fault → Fault → Bool
same_fault conflict conflict = true
same_fault remote_fault remote_fault = true
same_fault local_fault local_fault = true
same_fault other_fault other_fault = true
same_fault _ _ = false

pub seen-Throws :
    (clock : Clock) (now : Text) {s : Store} (r : FileRun) (fault : Fault)
    → same_fault fault remote_fault ≡ false
    → Throws (seen clock now r (err fault)) s s (faults fault)
seen-Throws clock now r conflict h = throw-Throws
seen-Throws clock now r remote_fault h = cc
seen-Throws clock now r local_fault h = throw-Throws
seen-Throws clock now r other_fault h = throw-Throws

module _ (clock : Clock) (now : Text) (q : Request) (u : is_uuid q.new_id ≡ true) where
  abbrev Held : Store → FileRun → Type 0
  Held = Holds clock now q.new_id u

  abbrev Answers : Act Started → Store → Type 0
  Answers m s = Leaves clock now q.new_id u m s (λ v. v.run)

  abbrev Observes : Act Reconciled → Store → Type 0
  Observes m s = Leaves clock now q.new_id u m s (λ v. v.run)

  abbrev returned : FileRun → Act Started
  returned run = pure (without_connection run)

  abbrev got : Act Started
  got = get clock now q.new_id >>= returned

  settle-Leaves :
      (s : Store) (r : FileRun) (c : Changes)
      → Held s r
      → assigns c ≡ true
      → Answers (settle clock now q.new_id c) s
  unfolding one_of all_active transition transition_file_run
  settle-Leaves s r c h a = elim (Bool-cases (one_of (preparing ∷ []) r.state)) [
    | inl y ↦
        let w =
          transition-Written clock now q.new_id u s r c (preparing ∷ []) refl h refl refl y a in
        record {
          store = w.store;
          result = without_connection (changed r c);
          gives =
              then-Gives (λ written. got) w.gives
                (then-Gives returned (get-Gives clock now q.new_id u refl w.holds) pure-Gives);
          holds = w.holds;
        }
    | inr n ↦
        let e : transition_file_run clock now q.new_id (preparing ∷ []) c s ≡ ok (false, s) =
          ground (arith, h.row, n, a) in
        record {
          store = s;
          result = without_connection r;
          gives =
              then-Gives {m = transition clock now q.new_id (preparing ∷ []) c} (λ written. got)
                {a = false} (record { returns = ap (updated s) e })
                (then-Gives returned (get-Gives clock now q.new_id u refl h) pure-Gives);
          holds = h;
        }
  ]

  abbrev connected : FileRun → Act Started
  connected run = pure (record { run = run; connection = some true })

  abbrev apply_to : Observation → FileRun → Act Started
  apply_to o current = do
    applied ← apply_observation clock now current o
    run ← get clock now q.new_id
    connected run

  told-Leaves :
      (s : Store) (r : FileRun) (x : Result Fault Observation)
      → Held s r
      → backend_only x ≡ true
      → Answers (told_by clock now q x) s
  unfolding apply_observation
  told-Leaves s r (err conflict) h a = cc
  told-Leaves s r (err other_fault) h a = cc
  told-Leaves s r (err remote_fault) h a =
      settle-Leaves s r (unknown_status clock now q.detail) h refl
  told-Leaves s r (err local_fault) h a =
      settle-Leaves s r (unknown_status clock now q.detail) h refl
  told-Leaves s r (ok o) h a = elim (Bool-cases (text_eq o.state (codes "lost"))) [
    | inl y ↦
        let w = settle-Leaves s r (failure clock now (codes "start_failed") q.detail) h refl in
        record {
          store = w.store;
          result = w.result;
          gives = true-Gives _ _ y w.gives;
          holds = w.holds;
        }
    | inr n ↦
        let w = applied-Performed clock now q.new_id u s r o (state_of o.state) h in
        record {
          store = w.store;
          result = record { run = w.run; connection = some true };
          gives = false-Gives _ _ n (
              then-Gives (apply_to o) (get-Gives clock now q.new_id u refl h) (
                then-Gives (λ applied. get clock now q.new_id >>= connected) w.gives
                  (then-Gives connected (get-Gives clock now q.new_id u refl w.holds) pure-Gives)));
          holds = w.holds;
        }
  ]

  backend_failed-Leaves :
      (s : Store) (r : FileRun) (attempted : Bool)
      → Held s r
      → backend_only q.status ≡ true
      → Answers (backend_failed clock now q attempted) s
  unfolding ask_backend
  backend_failed-Leaves s r attempted h a = elim (Bool-cases (attempted && is_remote q.workspace)) [
    | inl y ↦
        let w = told-Leaves s r q.status h a in
        record {
          store = w.store;
          result = w.result;
          gives = true-Gives _ _ y w.gives;
          holds = w.holds;
        }
    | inr n ↦
        let w = settle-Leaves s r (failure clock now (codes "start_failed") q.detail) h refl in
        record {
          store = w.store;
          result = w.result;
          gives = false-Gives _ _ n w.gives;
          holds = w.holds;
        }
  ]

  pub recover-Leaves :
      (s : Store) (r : FileRun) (attempted : Bool) (fault : Fault)
      → Held s r
      → is_caught fault ≡ true
      → backend_only q.status ≡ true
      → Answers (recover clock now q attempted (faults fault)) s
  recover-Leaves s r attempted conflict h x a =
      settle-Leaves s r (failure clock now (codes "source_changed") q.detail) h refl
  recover-Leaves s r attempted remote_fault h x a = backend_failed-Leaves s r attempted h a
  recover-Leaves s r attempted local_fault h x a = backend_failed-Leaves s r attempted h a
  recover-Leaves s r attempted other_fault h x a = cc
