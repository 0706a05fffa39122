-- ===== src/FileRuns/Calls.antt =====
-- Any calls of `FileRunManager`, one after the other (termroom/file_runs.py). Left out are the clean-up of
-- old history, which `start` makes first, and the deletion of terminals by the backends.
use termroom.Prelude.{Bool, true, some, List, [], ◌∷◌, Text, ◌≡◌}
use termroom.Prelude.Result.{Result}
use termroom.FileRuns.Table.{FileRun, Store, find, is_active}
use termroom.FileRuns.Store.{Clock}
use termroom.FileRuns.Act.{Fault}
use termroom.FileRuns.Steps.{Reaches, here, reaches_trans}
use termroom.FileRuns.Manager.{Observation, reconcile, stop, kill}
use termroom.FileRuns.Start.{Request, start}
use termroom.FileRuns.Traced.{reconcile-IsTraced, stop-IsTraced, kill-IsTraced}
use termroom.FileRuns.Traced.Start.{start-IsTraced}
use termroom.FileRuns.Steps.Active.{empty_store, one_active_run}
use termroom.FileRuns.Steps.Once.{count, told, one_event}

-- a call, with its time and what the backends give while it runs
pub data Call : Type 0 where
  starts : (now : Text) → Request → Call
  reconciles : (now id : Text) → Result Fault Observation → Call
  stops kills :
      (now id : Text)
      → Result Fault Observation
      → Result Fault Bool
      → Result Fault Observation
      → Call

abbrev pub called : Clock → Call → Store → Store
called clock (starts now q) s = (start clock now q s).0
called clock (reconciles now id x) s = (reconcile clock now id x s).0
called clock (stops now id x sent y) s = (stop clock now id x sent y s).0
called clock (kills now id x sent y) s = (kill clock now id x sent y s).0

-- the store after the calls, whether they return or raise
unfoldable pub after : Clock → List Call → Store → Store
unfolding start reconcile stop kill
after clock [] s = s
after clock (c ∷ cs) s = after clock cs (called clock c s)

called-Reaches : (clock : Clock) (c : Call) (s : Store) → Reaches clock s (called clock c s)
called-Reaches clock (starts now q) s = (start-IsTraced clock now q).trace s
called-Reaches clock (reconciles now id x) s = (reconcile-IsTraced clock now id x).trace s
called-Reaches clock (stops now id x sent y) s = (stop-IsTraced clock now id x sent y).trace s
called-Reaches clock (kills now id x sent y) s = (kill-IsTraced clock now id x sent y).trace s

pub after-Reaches :
    (clock : Clock) (cs : List Call) (s : Store) → Reaches clock s (after clock cs s)
unfolding after
after-Reaches clock [] s = here
after-Reaches clock (c ∷ cs) s =
    reaches_trans (called-Reaches clock c s) (after-Reaches clock cs (called clock c s))

-- After any calls of the manager from empty tables, whether they return or raise, two active runs of
-- one workspace are the same run.
pub after-one_active :
    (clock : Clock) (cs : List Call) (i j : Text) (r q : FileRun)
    → find (after clock cs empty_store).runs i ≡ some r
    → find (after clock cs empty_store).runs j ≡ some q
    → is_active r ≡ true
    → is_active q ≡ true
    → r.workspace_id ≡ q.workspace_id
    → i ≡ j
after-one_active clock cs i j r q =
    one_active_run clock i j r q (after-Reaches clock cs empty_store)

-- After any calls of the manager from empty tables, whether they return or raise, a run has one event
-- if it has ended, and none otherwise; the calls are without the clean-up of old history.
pub count-after :
    (clock : Clock) (cs : List Call) (id : Text)
    → count (after clock cs empty_store).events id
      ≡ told (find (after clock cs empty_store).runs id)
count-after clock cs id = one_event clock id (after-Reaches clock cs empty_store)
