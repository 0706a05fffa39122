-- ===== src/FileRuns/Returns/Reconcile.antt =====
-- `reconcile` and the transitions that it makes (termroom/file_runs.py).
use termroom.Prelude.{
  Bool, true, false, ◌||◌, Option, none, some, List, Text, text_eq_refl, is_empty, if◌then◌else◌,
  ◌≡◌, inl, inr, refl, ap, arith, Bool-cases, ◌∙◌,
}
use termroom.Prelude.Result.{Result, ok, err}
use termroom.FileRuns.Table.{
  RunState, preparing, is_terminal, same_state, FileRun, Store, find, is_active, amend,
}
use termroom.FileRuns.Store.{Clock}
use termroom.FileRuns.Transition.{
  Changes, assigns, changed, insert_file_run_event, one_of, transition_file_run,
}
use termroom.FileRuns.Act.{
  Fault, conflict, remote_fault, local_fault, other_fault, Act, ◌>>=◌, pure, updated, transition,
}
use termroom.FileRuns.Steps.{
  all_active, changes, Reaches, next, one_of-active, find-id, find-written,
}
use termroom.FileRuns.Manager.{
  is_uuid, Observation, state_of, live, get, observed_changes, applied, apply_observation,
  Reconciled, reconcile, seen,
}
use termroom.FileRuns.Steps.Active.{empty_store}
use termroom.FileRuns.Steps.Distinct.{other_active-false}
use termroom.FileRuns.Returns.{Gives, pure-Gives, then-Gives, true-Gives, false-Gives}

-- a backend that answers, or that cannot be reached
abbrev pub answered : Result Fault Observation → Bool
answered (ok o) = true
answered (err remote_fault) = true
answered (err _) = false

module _ (clock : Clock) (now id : Text) (u : is_uuid id ≡ true) where
  -- a store that transactions reach, with a row for the run
  pub record Holds (s : Store) (r : FileRun) : Type 0 where
    pub history : Reaches clock empty_store s
    pub row : find s.runs id ≡ some r

  -- the call returns, and the row is then as `row` says
  pub record Leaves {A : Type 0} (m : Act A) (s : Store) (row : A → FileRun) : Type 0 where
    pub store : Store
    pub result : A
    pub gives : Gives m s store result
    pub holds : Holds store (row result)

  pub get-Gives :
      {s : Store} {r : FileRun} {i : Text} → i ≡ id → Holds s r → Gives (get clock now i) s s r
  unfolding get
  get-Gives e h = record { returns = ground (arith, u, h.row, e) }

  -- a transition that changes something takes place if the state is an expected one
  pub record Written (s : Store) (r : FileRun) (c : Changes) (i : Text) (expected : List RunState)
      : Type 0 where
    pub store : Store
    pub gives : Gives (transition clock now i expected c) s store true
    pub holds : Holds store (changed r c)

  pub transition-Written :
      (s : Store) (r : FileRun) (c : Changes) {i : Text} (expected : List RunState)
      → i ≡ id
      → Holds s r
      → is_empty expected ≡ false
      → all_active expected ≡ true
      → one_of expected r.state ≡ true
      → assigns c ≡ true
      → Written s r c i expected
  unfolding transition transition_file_run
  transition-Written s r c {i = i} expected ei h m x y g =
      let v = one_of-active expected r.state x y in
      let a : is_active r ≡ true = ground (arith, v) in
      let o = other_active-false clock s id r h.history h.row a in
      let t : Store = record {
        runs = amend s.runs (changed r c);
        events = insert_file_run_event clock now (changed r c) s.events;
      } in
      let e : transition_file_run clock now i expected c s ≡ ok (true, t) =
        ground (arith, o, h.row, a, g, ei, m, y) in
      record {
        store = t;
        gives = record { returns = ap (updated s) e };
        holds = record {
          history = next h.history (changes now i expected c s t true x e);
          row =
              find-written s.runs r (changed r c) id id h.row refl
              ∙ ground (arith, text_eq_refl id);
        };
      }

  pub written :
      (s : Store) (r : FileRun) (c : Changes) {i : Text}
      → i ≡ id
      → Holds s r
      → is_active r ≡ true
      → assigns c ≡ true
      → Written s r c i live
  unfolding one_of all_active
  written s r c ei h a g = transition-Written s r c live ei h refl refl (ground (arith, a)) g

  pub observed_changes-assigns :
      (r : FileRun) (o : Observation) (state : RunState)
      → assigns (observed_changes clock now r o state) ≡ true
  observed_changes-assigns r o state = ground arith

  pub record Performed (s : Store) (r : FileRun) (o : Observation) (x : Option RunState)
      : Type 0 where
    pub store : Store
    pub run : FileRun
    pub gives : Gives (applied clock now r o x) s store tt
    pub holds : Holds store run

  pub applied-Performed :
      (s : Store) (r : FileRun) (o : Observation) (x : Option RunState)
      → Holds s r
      → Performed s r o x
  applied-Performed s r o none h = record { store = s; run = r; gives = pure-Gives; holds = h }
  applied-Performed s r o (some state) h =
      elim (Bool-cases (is_terminal r.state || same_state state preparing)) [
        | inl y ↦ record { store = s; run = r; gives = true-Gives _ _ y pure-Gives; holds = h }
        | inr n ↦
            let c = observed_changes clock now r o state in
            let w =
              written s r c (find-id s.runs id r h.row) h (ground (arith, n))
                (observed_changes-assigns r o state) in
            record {
              store = w.store;
              run = changed r c;
              gives = false-Gives _ _ n (then-Gives (λ done. pure tt) w.gives pure-Gives);
              holds = w.holds;
            }
      ]

  abbrev pub online : FileRun → Act Reconciled
  online run = pure (record { run = run; online = true })

  pub seen-Leaves :
      (s : Store) (r : FileRun) (x : Result Fault Observation)
      → Holds s r
      → answered x ≡ true
      → Leaves (seen clock now r x) s (λ v. v.run)
  unfolding apply_observation
  seen-Leaves s r (err remote_fault) h a = record {
    store = s;
    result = _;
    gives = pure-Gives;
    holds = h;
  }
  seen-Leaves s r (err conflict) h a = cc
  seen-Leaves s r (err local_fault) h a = cc
  seen-Leaves s r (err other_fault) h a = cc
  seen-Leaves s r (ok o) h a =
      let w = applied-Performed s r o (state_of o.state) h in
      record {
        store = w.store;
        result = record { run = w.run; online = true };
        gives =
            then-Gives (λ a. get clock now r.id >>= online) w.gives
              (then-Gives online (get-Gives (find-id s.runs id r h.row) w.holds) pure-Gives);
        holds = w.holds;
      }

  abbrev pub observe : Result Fault Observation → FileRun → Act Reconciled
  observe x run =
      if is_terminal run.state
      then pure (record { run = run; online = true })
      else seen clock now run x

  pub reconcile-Leaves :
      (s : Store) (r : FileRun) (x : Result Fault Observation)
      → Holds s r
      → answered x ≡ true
      → Leaves (reconcile clock now id x) s (λ v. v.run)
  unfolding reconcile
  reconcile-Leaves s r x h a = elim (Bool-cases (is_terminal r.state)) [
    | inl y ↦ record {
      store = s;
      result = record { run = r; online = true };
      gives = then-Gives (observe x) (get-Gives refl h) (true-Gives _ _ y pure-Gives);
      holds = h;
    }
    | inr n ↦
        let w = seen-Leaves s r x h a in
        record {
          store = w.store;
          result = w.result;
          gives = then-Gives (observe x) (get-Gives refl h) (false-Gives _ _ n w.gives);
          holds = w.holds;
        }
  ]
