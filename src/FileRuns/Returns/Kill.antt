-- ===== src/FileRuns/Returns/Kill.antt =====
-- A killed run has ended (`kill` of termroom/file_runs.py).
use termroom.Prelude.{true, false, ◌&&◌, not, some, Text, ◌≡◌, inl, inr, refl, arith, Bool-cases}
use termroom.Prelude.Result.{Result, ok}
use termroom.FileRuns.Table.{is_terminal, FileRun, Store, find}
use termroom.FileRuns.Store.{Clock}
use termroom.FileRuns.Transition.{changed}
use termroom.FileRuns.Act.{Fault, Act, pure}
use termroom.FileRuns.Steps.{Reaches}
use termroom.FileRuns.Manager.{
  is_uuid, Observation, get, Reconciled, stop_changes, kill, forced, end_killed, observe_killed,
  record_kill, kill_active,
}
use termroom.FileRuns.Steps.Active.{empty_store}
use termroom.FileRuns.Returns.{
  Gives, pure-Gives, outside-Gives, then-Gives, true-Gives, false-Gives,
}
use termroom.FileRuns.Returns.Reconcile.{answered, Holds, get-Gives, written, reconcile-Leaves}

module _ (clock : Clock) (now id : Text) (u : is_uuid id ≡ true) where
  -- the run has ended
  record Ends (m : Act FileRun) (s : Store) : Type 0 where
    store : Store
    run : FileRun
    gives : Gives m s store run
    holds : Holds clock now id u store run
    ended : is_terminal run.state ≡ true

  end_killed-Ends :
      (s : Store) (after : Reconciled)
      → Holds clock now id u s after.run
      → Ends (end_killed clock now id true after) s
  end_killed-Ends s after h = elim (Bool-cases (is_terminal after.run.state)) [
    | inl y ↦ record {
      store = s;
      run = after.run;
      gives =
          false-Gives {b = true && not (is_terminal after.run.state)} _ _ (ground (arith, y))
            pure-Gives;
      holds = h;
      ended = y;
    }
    | inr n ↦
        let w =
          written clock now id u s after.run (forced clock now) refl h (ground (arith, n)) refl in
        record {
          store = w.store;
          run = changed after.run (forced clock now);
          gives =
              true-Gives {b = true && not (is_terminal after.run.state)} _ _ (ground (arith, n)) (
                then-Gives (λ ended. get clock now id) w.gives
                  (get-Gives clock now id u refl w.holds));
          holds = w.holds;
          ended = refl;
        }
  ]

  kill_active-Ends :
      (s : Store) (second : Result Fault Observation) (before : Reconciled)
      → Holds clock now id u s before.run
      → answered second ≡ true
      → Ends (kill_active clock now id (ok true) second before) s
  kill_active-Ends s second before h a = elim (Bool-cases (is_terminal before.run.state)) [
    | inl y ↦ record {
      store = s;
      run = before.run;
      gives = true-Gives _ _ y pure-Gives;
      holds = h;
      ended = y;
    }
    | inr n ↦
        let w =
          written clock now id u s before.run (stop_changes clock now before.run) refl h
            (ground (arith, n)) refl in
        let v = reconcile-Leaves clock now id u w.store _ second w.holds a in
        let e = end_killed-Ends v.store v.result v.holds in
        record {
          store = e.store;
          run = e.run;
          gives = false-Gives _ _ n (
              then-Gives (record_kill clock now id second before) {a = true} outside-Gives (
                then-Gives (observe_killed clock now id second true)
                  (true-Gives _ (pure false) refl w.gives)
                  (then-Gives (end_killed clock now id true) v.gives e.gives)));
          holds = e.holds;
          ended = e.ended;
        }
  ]

-- In a store that transactions from empty tables reach, `kill` of a run that has a row, with an
-- identifier of the right form, returns a run that has ended and that stands in the store, where the
-- backend says that it killed the run and its two observations give an answer, whatever they say, or
-- cannot reach the backend.
pub kill-terminal :
    (clock : Clock) (now id : Text) (s : Store) (r : FileRun)
    (first second : Result Fault Observation)
    → Reaches clock empty_store s
    → is_uuid id ≡ true
    → find s.runs id ≡ some r
    → answered first ≡ true
    → answered second ≡ true
    → (t : Store) × (q : FileRun) × (kill clock now id first (ok true) second s ≡ (t, ok q))
      × (is_terminal q.state ≡ true)
      × (find t.runs id ≡ some q)
unfolding kill
kill-terminal clock now id s r first second h u f a b =
    let w = reconcile-Leaves clock now id u s r first (record { history = h; row = f }) a in
    let e = kill_active-Ends clock now id u w.store second w.result w.holds b in
    (
      e.store,
      e.run,
      (then-Gives (kill_active clock now id (ok true) second) w.gives e.gives).returns,
      e.ended,
      e.holds.row,
    )
