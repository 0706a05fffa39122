-- ===== src/FileRuns/Returns/Launch.antt =====
-- A run that is claimed is accounted for (`start` of termroom/file_runs.py).
use termroom.Prelude.{
  true, false, none, some, ◌∷◌, Text, text_eq_refl, ◌≡◌, ◌⊎◌, inl, inr, refl, sym, ap, subst, arith,
  ◌∙◌,
}
use termroom.Prelude.Result.{Result, ok, err}
use termroom.FileRuns.Table.{is_terminal, FileRun, Store, find, is_active, active_in, keyed, amend}
use termroom.FileRuns.Store.{Clock, ClaimPayload, created, new_run, claim_file_run}
use termroom.FileRuns.Transition.{set_file_run_terminal}
use termroom.FileRuns.Act.{
  Fault, conflict, remote_fault, local_fault, other_fault, faults, not_supported, Act, ◌>>=◌, pure,
  throw, outside, catch, tie, claimed_by, claim,
}
use termroom.FileRuns.Runner.{RunnableFile, ResolvedRunner, resolve_runner}
use termroom.FileRuns.Steps.{Step, claims, ties, Reaches, next, find-written}
use termroom.FileRuns.Manager.{
  is_uuid, is_workspace_id, eligible_workspace, Observation, Reconciled, reconcile,
}
use termroom.FileRuns.Start.{
  Request, Started, with_connection, payload_of, confirmed_as, confirm, dispatch_file, run_with,
  recover, dispatch, proceed, start,
}
use termroom.FileRuns.Returns.{
  Gives, pure-Gives, outside-Gives, then-Gives, false-Gives, Throws, outside-Throws, then-Throws,
  first-Throws, false-Throws, catch-Gives, handled-Gives,
}
use termroom.FileRuns.Returns.Reconcile.{
  answered, Holds, Leaves, get-Gives, observe, reconcile-Leaves,
}
use termroom.FileRuns.Steps.Active.{empty_store}
use termroom.FileRuns.Returns.Recover.{
  is_caught, expected, backend_only, same_fault, seen-Throws, recover-Leaves,
}

observed-cases :
    (o : Result Fault Observation)
    → expected o ≡ true
    → (answered o ≡ true)
      ⊎ ((fault : Fault) × (o ≡ err fault)
          × (same_fault fault remote_fault ≡ false)
          × (is_caught fault ≡ true))
observed-cases (ok o) h = inl refl
observed-cases (err remote_fault) h = inl refl
observed-cases (err conflict) h = inr (conflict, refl, refl, refl)
observed-cases (err local_fault) h = inr (local_fault, refl, refl, refl)
observed-cases (err other_fault) h = cc

module _ (clock : Clock) (now : Text) (q : Request) (u : is_uuid q.new_id ≡ true) where
  abbrev Held : Store → FileRun → Type 0
  Held = Holds clock now q.new_id u

  abbrev Answers : Act Started → Store → Type 0
  Answers m s = Leaves clock now q.new_id u m s (λ v. v.run)

  -- a reconciliation that raises keeps the store
  reconcile-Throws :
      (s : Store) (r : FileRun) (fault : Fault)
      → Held s r
      → is_terminal r.state ≡ false
      → same_fault fault remote_fault ≡ false
      → Throws (reconcile clock now q.new_id (err fault)) s s (faults fault)
  unfolding reconcile
  reconcile-Throws s r fault h n m =
      then-Throws (observe clock now q.new_id u (err fault)) (get-Gives clock now q.new_id u refl h)
        (false-Throws _ _ n (seen-Throws clock now r fault m))

  tie-Leaves :
      (s : Store) (r : FileRun) (terminal_id : Text)
      → Held s r
      → is_active r ≡ true
      → (t : Store) × Gives (tie q.new_id terminal_id) s t true
        × Held t (record r { terminal_id = some terminal_id })
  unfolding tie set_file_run_terminal
  tie-Leaves s r terminal_id h a =
      let row = record r { terminal_id = some terminal_id } in
      let t : Store = record s { runs = amend s.runs row } in
      let e : set_file_run_terminal q.new_id terminal_id s ≡ (true, t) = ground (arith, h.row, a) in
      (
        t,
        record { returns = ap (λ x. (x.1, ok x.0)) e },
        record {
          history =
              next h.history (subst (Step clock s) (ap (λ x. x.1) e) (ties q.new_id terminal_id s));
          row =
              find-written s.runs r row q.new_id q.new_id h.row refl
              ∙ ground (arith, text_eq_refl q.new_id);
        },
      )

  abbrev answer : Reconciled → Act Started
  answer r = pure (with_connection r)

  abbrev tie_then : Result Fault Observation → Text → Act Started
  tie_then o terminal_id = do
    tied ← tie q.new_id terminal_id
    r ← reconcile clock now q.new_id o
    answer r

  abbrev attempt : Result Fault Text → Result Fault Observation → Act Started
  attempt d o = outside d >>= tie_then o

  abbrev recovered : Act Started → Act Started
  recovered m = catch m (recover clock now q true)

  handled-Leaves :
      {m : Act Started} (s t : Store) (r : FileRun) (fault : Fault)
      → Throws m s t (faults fault)
      → Held t r
      → is_caught fault ≡ true
      → backend_only q.status ≡ true
      → Answers (recovered m) s
  handled-Leaves s t r fault g h x a =
      let w = recover-Leaves clock now q u t r true fault h x a in
      record {
        store = w.store;
        result = w.result;
        gives = handled-Gives (recover clock now q true) g w.gives;
        holds = w.holds;
      }

  attempt-Leaves :
      (s : Store) (r : FileRun) (d : Result Fault Text) (o : Result Fault Observation)
      → Held s r
      → is_active r ≡ true
      → expected d ≡ true
      → expected o ≡ true
      → backend_only q.status ≡ true
      → Answers (recovered (attempt d o)) s
  attempt-Leaves s r (err fault) o h v x y a =
      handled-Leaves s s r fault (first-Throws (tie_then o) outside-Throws) h x a
  attempt-Leaves s r (ok terminal_id) o h v x y a =
      let w = tie-Leaves s r terminal_id h v in
      let row = record r { terminal_id = some terminal_id } in
      elim (observed-cases o y) [
        | inl e ↦
            let k = reconcile-Leaves clock now q.new_id u w.0 row o w.2 e in
            record {
              store = k.store;
              result = with_connection k.result;
              gives = catch-Gives (recover clock now q true) (
                  then-Gives (tie_then o) {a = terminal_id} outside-Gives (
                    then-Gives (λ tied. reconcile clock now q.new_id o >>= answer) w.1
                      (then-Gives answer k.gives pure-Gives)));
              holds = k.holds;
            }
        | inr e ↦
            let k = reconcile-Throws w.0 row e.0 w.2 (ground (arith, v)) e.2 in
            handled-Leaves s w.0 row e.0
              (then-Throws (tie_then o) {a = terminal_id} outside-Gives (
                then-Throws (λ tied. reconcile clock now q.new_id o >>= answer) w.1
                  (first-Throws answer (
                    subst (λ z. Throws (reconcile clock now q.new_id z) w.0 w.0 (faults (e.0)))
                      (sym e.1) k))))
              w.2 e.3 a
      ]

  dispatch_file-Leaves :
      (s : Store) (r : FileRun) (x : Result Fault RunnableFile)
      → Held s r
      → is_active r ≡ true
      → expected x ≡ true
      → expected q.dispatched ≡ true
      → expected q.observed ≡ true
      → backend_only q.status ≡ true
      → Answers (dispatch_file clock now q x) s
  dispatch_file-Leaves s r (err fault) h v x d o a =
      recover-Leaves clock now q u s r false fault h x a
  dispatch_file-Leaves s r (ok f) h v x d o a = attempt-Leaves s r q.dispatched q.observed h v d o a

expected-confirm :
    (runner : ResolvedRunner) (x : Result Fault RunnableFile)
    → expected x ≡ true
    → expected (confirm runner x) ≡ true
unfolding confirm
expected-confirm runner (err fault) h = h
expected-confirm runner (ok f) h =
    elim (resolve_runner f) as (λ y. expected (confirmed_as runner f y) ≡ true) [
      | none ↦ refl
      | some none ↦ refl
      | some (some again) ↦ ground arith
    ]

claim-created :
    (now : Text) (p : ClaimPayload) (s : Store)
    → keyed s.runs p.workspace_id p.idempotency_key ≡ none
    → active_in s.runs p.workspace_id ≡ none
    → find s.runs p.id ≡ none
    → claim_file_run now p s
      ≡ ok (record {
        claim = created;
        run = new_run p now;
        store = record s { runs = new_run p now ∷ s.runs };
      })
unfolding claim_file_run
claim-created now p s k a n = ground (arith, k, a, n)

abbrev start_with : Clock → Text → Request → RunnableFile → Act Started
start_with clock now q f = run_with clock now q f (resolve_runner f)

-- In a store that transactions from empty tables reach, where the workspace has no active run, and the
-- idempotency key and the new identifier are free: `start` of a file with a runner returns a run, which
-- stands in the store under the new identifier, whatever the second inspection, the backend and its
-- observations give, as long as no exception comes that `start` does not catch. The workspace is eligible
-- and the identifiers have the right form.
pub start-answers :
    (clock : Clock) (now : Text) (s : Store) (q : Request) (f : RunnableFile)
    (runner : ResolvedRunner)
    → Reaches clock empty_store s
    → is_uuid q.new_id ≡ true
    → eligible_workspace q.workspace ≡ true
    → is_workspace_id q.workspace.id ≡ true
    → is_uuid q.idempotency_key ≡ true
    → q.inspected ≡ ok f
    → resolve_runner f ≡ some (some runner)
    → keyed s.runs q.workspace.id q.idempotency_key ≡ none
    → active_in s.runs q.workspace.id ≡ none
    → find s.runs q.new_id ≡ none
    → expected q.confirmed ≡ true
    → expected q.dispatched ≡ true
    → expected q.observed ≡ true
    → backend_only q.status ≡ true
    → (t : Store) × (r : Started) × (start clock now q s ≡ (t, ok r))
      × (find t.runs q.new_id ≡ some r.run)
unfolding start dispatch claim find
start-answers clock now s q f runner h u e w k i rr free_key idle free_id x d o b =
    let p = payload_of q f runner in
    let t : Store = record s { runs = new_run p now ∷ s.runs } in
    let c = claim-created now p s free_key idle free_id in
    let v =
      dispatch_file-Leaves clock now q u t (new_run p now) (confirm runner q.confirmed)
        (record {
          history = next h (claims now p s _ c);
          row = ground (arith, text_eq_refl q.new_id);
        })
        refl (expected-confirm runner q.confirmed x) d o b in
    let g : Gives (claim now p) s t (record { claim = created; run = new_run p now; store = t }) =
      record { returns = ap (claimed_by s) c } in
    let j = then-Gives (λ z. proceed clock now q runner z.claim z.run) g v.gives in
    let m : Gives (start_with clock now q f) s v.store v.result =
      subst (λ z. Gives (run_with clock now q f z) s v.store v.result) (sym rr) j in
    let n : Gives (outside q.inspected) s s f =
      subst (λ z. Gives (outside z) s s f) (sym i) outside-Gives in
    (
      v.store,
      v.result,
      (false-Gives (throw not_supported) _ (ground (arith, e)) (
          false-Gives (throw (faults conflict)) _ (ground (arith, w, k))
            (then-Gives (start_with clock now q) n m))).returns,
      v.holds.row,
    )
