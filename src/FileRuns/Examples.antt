-- ===== src/FileRuns/Examples.antt =====
-- Runs of a script, and the theorems at them.
use termroom.Prelude.{
  true, false, Option, none, some, List, [], ◌∷◌, Text, codes, text_eq, ◌≡◌, ◌⊎◌, refl,
}
use termroom.Prelude.Result.{Result, ok, err}
use termroom.Prelude.Split.{any, split, join, starts_with}
use termroom.Prelude.Posix.{root}
use termroom.Prelude.Integers.{pos}
use termroom.FileRuns.Table.{
  running, finished, is_terminal, FileRun, Store, find, active_in, keyed, forget_terminals,
}
use termroom.FileRuns.Store.{
  Clock, ClaimPayload, idempotent, created, Claimed, new_run, claim_file_run,
}
use termroom.FileRuns.Act.{Fault, remote_fault, local_fault}
use termroom.FileRuns.Runner.{RunnableFile, ResolvedRunner, resolve_runner}
use termroom.FileRuns.Steps.{Reaches, here, next, forgets}
use termroom.FileRuns.Steps.Final.{ended_run_kept}
use termroom.FileRuns.Manager.{
  is_uuid, is_workspace_id, Workspace, eligible_workspace, Observation, reconcile, kill,
}
use termroom.FileRuns.Start.{Request, Started, payload_of, start}
use termroom.FileRuns.Steps.Active.{empty_store}
use termroom.FileRuns.Steps.Once.{count, told}
use termroom.FileRuns.Steps.Keys.{claim_again}
use termroom.FileRuns.Calls.{
  Call, starts, reconciles, kills, after, after-one_active, count-after, after-Reaches,
}
use termroom.FileRuns.Returns.Kill.{kill-terminal}
use termroom.FileRuns.Returns.Launch.{start-answers}

abbrev clock : Clock
clock = record { seconds_between = λ a b. some (pos 45); display_name = λ w. codes "Home" }

abbrev run_id : Text
run_id = codes "11111111-1111-4111-8111-111111111111"

abbrev key : Text
key = codes "22222222-2222-4222-8222-222222222222"

abbrev other_id : Text
other_id = codes "33333333-3333-4333-8333-333333333333"

abbrev home : Workspace
home = record {
  id = codes "w1";
  workspace_kind = codes "workspace";
  transient = false;
  backend_kind = codes "local";
  connection_method = none;
  node_supported = false;
}

abbrev script : RunnableFile
script = record {
  relative_path = codes "jobs/main.py";
  digest = codes "abc";
  executable = false;
  has_shebang = false;
}

abbrev python : ResolvedRunner
python = record {
  id = codes "python3";
  version = 1;
  argv = codes "python3" ∷ codes "--" ∷ codes "./jobs/main.py" ∷ [];
  runtime_error_code = codes "python3_missing";
}

-- the file is the expected one, the terminal starts, and the program runs
abbrev request : Request
request = record {
  workspace = home;
  idempotency_key = key;
  new_id = run_id;
  inspected = ok script;
  confirmed = ok script;
  dispatched = ok (codes "t1");
  observed = ok (record {
    state = codes "running";
    started_at = some (codes "10:00");
    ended_at = none;
    exit_code = none;
    error_code = none;
    error_detail = none;
  });
  status = err local_fault;
  detail = codes "detail";
}

abbrev finish : Result Fault Observation
finish = ok (record {
  state = codes "finished";
  started_at = none;
  ended_at = some (codes "10:05");
  exit_code = some (pos 0);
  error_code = none;
  error_detail = none;
})

abbrev calls : List Call
calls =
    starts (codes "10:00") request
    ∷ reconciles (codes "10:06") run_id finish
    ∷ reconciles (codes "10:07") run_id finish
    ∷ []

abbrev later_calls : List Call
later_calls =
    kills (codes "10:08") run_id finish (ok true) finish
    ∷ starts (codes "10:09") (record request { new_id = other_id })
    ∷ []

abbrev payload : ClaimPayload
payload = payload_of request script python

abbrev started_run : FileRun
started_run = record (new_run payload (codes "10:00")) {
  terminal_id = some (codes "t1");
  state = running;
  lifecycle_revision = 1;
  started_at = some ((codes "10:00"));
}

abbrev running_store : Store
running_store = after clock (starts (codes "10:00") request ∷ []) empty_store

running_found : find running_store.runs run_id ≡ some started_run
unfolding after start find text_eq any starts_with split root
running_found = refl

running_reached : Reaches clock empty_store running_store
running_reached = after-Reaches clock (starts (codes "10:00") request ∷ []) empty_store

abbrev ended_run : FileRun
ended_run = record started_run {
  state = finished;
  lifecycle_revision = 2;
  ended_at = some (codes "10:05");
  exit_code = some (pos 0);
}

abbrev ended_store : Store
ended_store = after clock calls empty_store

ended_found : find ended_store.runs run_id ≡ some ended_run
unfolding after start reconcile find text_eq any starts_with split root
ended_found = refl

-- the later calls, and the deletion of the terminal of the run
abbrev later_store : Store
later_store = forget_terminals (codes "t1" ∷ []) (after clock later_calls ended_store)

ended_run_kept_example :
    (terminal : Option Text) × (find later_store.runs run_id
      ≡ some (record ended_run { terminal_id = terminal }))
    × ((terminal ≡ ended_run.terminal_id) ⊎ (terminal ≡ none))
ended_run_kept_example =
    ended_run_kept clock ended_store later_store run_id ended_run
      (next (after-Reaches clock later_calls ended_store)
        (forgets (codes "t1" ∷ []) (after clock later_calls ended_store)))
      ended_found refl

after-one_active_example : run_id ≡ run_id
after-one_active_example =
    after-one_active clock (starts (codes "10:00") request ∷ []) run_id run_id started_run
      started_run running_found running_found refl refl refl

count-after_example :
    count (after clock calls empty_store).events run_id
    ≡ told (find (after clock calls empty_store).runs run_id)
count-after_example = count-after clock calls run_id

abbrev claimed : Claimed
claimed = record {
  claim = created;
  run = new_run payload (codes "10:00");
  store = record { runs = new_run payload (codes "10:00") ∷ []; events = [] };
}

payload_claimed : claim_file_run (codes "10:00") payload empty_store ≡ ok claimed
unfolding claim_file_run keyed active_in find
payload_claimed = refl

claim_again_example :
    (r : FileRun) × (claim_file_run (codes "10:30") (record payload { id = other_id }) claimed.store
      ≡ ok (record { claim = idempotent; run = r; store = claimed.store }))
    × (r.id ≡ claimed.run.id)
claim_again_example =
    claim_again clock (codes "10:00") (codes "10:30") payload other_id empty_store claimed.store
      claimed here payload_claimed refl here

is_uuid-run_id : is_uuid run_id ≡ true
unfolding is_uuid
is_uuid-run_id = refl

kill-terminal_example :
    (t : Store) × (q : FileRun) × (kill clock
        (codes "10:02")
        run_id
        (err remote_fault)
        (ok true)
        (err remote_fault)
        running_store
      ≡ (t, ok q))
    × (is_terminal q.state ≡ true)
    × (find t.runs run_id ≡ some q)
kill-terminal_example =
    kill-terminal clock (codes "10:02") run_id running_store started_run (err remote_fault)
      (err remote_fault) running_reached is_uuid-run_id running_found refl refl

is_uuid-key : is_uuid key ≡ true
unfolding is_uuid
is_uuid-key = refl

script_resolved : resolve_runner script ≡ some (some python)
unfolding resolve_runner split any starts_with text_eq root join
script_resolved = refl

home_eligible : eligible_workspace home ≡ true
unfolding eligible_workspace text_eq
home_eligible = refl

home_named : is_workspace_id home.id ≡ true
unfolding is_workspace_id any
home_named = refl

nothing_keyed : keyed empty_store.runs home.id key ≡ none
unfolding keyed
nothing_keyed = refl

nothing_active : active_in empty_store.runs home.id ≡ none
unfolding active_in
nothing_active = refl

nothing_found : find empty_store.runs run_id ≡ none
unfolding find
nothing_found = refl

start-answers_example :
    (t : Store) × (r : Started) × (start clock (codes "10:00") request empty_store ≡ (t, ok r))
    × (find t.runs run_id ≡ some r.run)
start-answers_example =
    start-answers clock (codes "10:00") empty_store request script python here is_uuid-run_id
      home_eligible home_named is_uuid-key refl script_resolved nothing_keyed nothing_active
      nothing_found refl refl refl refl
