-- ===== src/Mcp/Jobs.antt =====
-- The jobs of the server (internal/mcp/sqlite_jobs.go, and the statuses and results of
-- internal/mcp/model.go). A slot is what the manager keeps of one job: its row of mcp_jobs, its
-- entries in the maps `cancels` and `waiters`, and how far the code that `Start` runs for it has
-- come. Each function here is one atomic piece of that code; Mcp/Jobs/Steps says when it may run.
use tgup.Prelude.{
  ℕ, suc, Bool, true, false, not, ◌||◌, ◌&&◌, Option, none, some, List, [], ◌∷◌, ◌++◌, map, ltb,
  leb, ◌==◌, if◌then◌else◌, count_if,
}
use tgup.Prelude.Int.{ℤ, pos, negsuc}
use tgup.Prelude.Text.{Text, codes}
pub mod Steps
pub mod Sound
pub mod Limit
pub mod Finish
pub mod Tests

pub data Status : Type 0 where
  queued running done failed cancelled : Status

unfoldable pub status_text : Status → Text
status_text queued = codes "queued"
status_text running = codes "running"
status_text done = codes "done"
status_text failed = codes "failed"
status_text cancelled = codes "cancelled"

pub record RunResult : Type 0 where
  pub sent : ℕ
  pub failed : ℕ
  pub skipped : ℕ
  pub total : ℕ
  pub canceled : Bool

pub record Job : Type 0 where
  pub status : Status
  pub config_path : Text
  pub created_at : ℕ
  pub started_at : Option ℕ
  pub finished_at : Option ℕ
  pub result : Option RunResult
  pub error : Text

-- `IsTerminal`.
unfoldable pub is_terminal : Status → Bool
is_terminal queued = false
is_terminal running = false
is_terminal _ = true

unfoldable pub is_queued : Status → Bool
is_queued queued = true
is_queued _ = false

-- How far `Start` and then `run` have come: the queue has room, the row is there, `run` waits for
-- the semaphore, has it, runs the job, has finished it, has given the semaphore back, is over.
pub data Phase : Type 0 where
  admitted inserted waiting holding active leaving released ended : Phase

-- A call of `Wait`: its channel, and whether it went on to wait for it.
pub record Waiter : Type 0 where
  pub channel : ℕ
  pub blocked : Bool

pub record Slot : Type 0 where
  pub row : Option Job
  pub phase : Phase
  pub registered : Bool  -- the job is in `cancels`
  pub context_done : Bool
  pub waiters : List ℕ  -- the job's channels in `waiters`
  pub woken : List ℕ  -- the channels closed
  pub callers : List Waiter  -- the calls of `Wait`
  pub events : List (Text × Bool)  -- type and `Terminal`, the last first

unfoldable pub emit_event : Text → Bool → Slot → Slot
emit_event kind terminal s = record s { events = (kind, terminal) ∷ s.events }

-- A slot whose `Start` has passed the check of the queue's depth.
unfoldable pub new_slot : Slot
new_slot = record {
  row = none;
  phase = admitted;
  registered = false;
  context_done = false;
  waiters = [];
  woken = [];
  callers = [];
  events = [];
}

-- `Start`, the insertion and its event.
unfoldable pub insert_row : ℕ → Text → Slot → Slot
unfolding emit_event
insert_row now path s = emit_event (codes "job.queued") false (record s {
  row = some (record {
    status = queued;
    config_path = path;
    created_at = now;
    started_at = none;
    finished_at = none;
    result = none;
    error = [];
  });
  phase = inserted;
})

-- `Start`, from the cancel function on.
unfoldable pub launch : Slot → Slot
launch s = record s { registered = true; phase = waiting }

-- `run`, the case of the semaphore.
unfoldable pub acquired : Slot → Slot
acquired s = record s { phase = holding }

unfoldable pub finished : ℕ → Status → Option RunResult → Text → Option Job → Option Job
finished now status result message none = none
finished now status result message (some job) =
    some (record job { status = status; finished_at = some now; result = result; error = message })

-- `finishJob`.
unfoldable pub finish_job : ℕ → Status → Option RunResult → Text → Slot → Slot
unfolding emit_event finished status_text
finish_job now status result message s =
    emit_event (codes "job." ++ status_text status) true
      (record s { row = finished now status result message s.row })

-- `run`, the case of a context that is done.
unfoldable pub give_up : ℕ → Slot → Slot
unfolding finish_job
give_up now s =
    finish_job now cancelled none (codes "cancelled before start") (record s { phase = released })

unfoldable pub started : ℕ → Option Job → Option Job
started now none = none
started now (some job) = some (record job { status = running; started_at = some now })

-- `run`, the mark and its event.
unfoldable pub mark_running : ℕ → Slot → Slot
unfolding started emit_event
mark_running now s =
    emit_event (codes "job.running") false (record s { row = started now s.row; phase = active })

-- What a runner does: it returns a result and perhaps an error, or it panics.
pub data Ran : Type 0 where
  returned : Option RunResult → Option Text → Ran
  panicked : Text → Ran

-- `safeRun`.
unfoldable pub safe_run : Ran → Option RunResult × Option Text
safe_run (returned result error) = (result, error)
safe_run (panicked message) = (none, some (codes "job runner panic: " ++ message))

unfoldable pub conclude : ℕ → Option RunResult → Option Text → Bool → Slot → Slot
unfolding finish_job
conclude now result error true s = finish_job now cancelled result (codes "cancelled") s
conclude now result (some message) false s = finish_job now failed result message s
conclude now result none false s = finish_job now done result [] s

-- `run`, from the return of the runner to the end of its body.
unfoldable pub run_returns : ℕ → Ran → Slot → Slot
unfolding conclude safe_run
run_returns now ran s =
    conclude now (safe_run ran).0 (safe_run ran).1 s.context_done (record s { phase = leaving })

-- `run`, the two deferred functions in their order.
unfoldable pub release : Slot → Slot
release s = record s { phase = released }

unfoldable pub clean_up : Slot → Slot
clean_up s = record s {
  registered = false;
  waiters = [];
  woken = s.waiters ++ s.woken;
  phase = ended;
}

unfoldable pub cancelled_row : ℕ → Job → Job
cancelled_row now job = record job { status = cancelled; finished_at = some now }

unfoldable pub cancel_queued : ℕ → Option Job → Slot → Slot
unfolding cancelled_row emit_event is_queued
cancel_queued now none s = s
cancel_queued now (some job) s =
    if is_queued job.status
    then emit_event (codes "job.cancelled") true (record s { row = some (cancelled_row now job) })
    else s

-- `Cancel`.
unfoldable pub cancel : ℕ → Slot → Slot
unfolding cancel_queued
cancel now s = if s.registered then record s { context_done = true } else cancel_queued now s.row s

-- `Wait`, the registration of its channel.
unfoldable pub wait_register : ℕ → Slot → Slot
wait_register channel s = record s {
  waiters = s.waiters ++ channel ∷ [];
  callers = s.callers ++ record { channel = channel; blocked = false } ∷ [];
}

unfoldable pub row_terminal : Option Job → Bool
unfolding is_terminal
row_terminal none = true
row_terminal (some job) = is_terminal job.status

unfoldable pub block_on : ℕ → List Waiter → List Waiter
block_on channel [] = []
block_on channel (w ∷ ws) =
    let rest = block_on channel ws in
    if w.channel == channel then record w { blocked = true } ∷ rest else w ∷ rest

-- `Wait`, the check; it returns on a job that is not there or has finished.
unfoldable pub wait_check : ℕ → Slot → Slot
unfolding row_terminal block_on
wait_check channel s =
    if row_terminal s.row then s else record s { callers = block_on channel s.callers }

-- The sizes of the semaphore and of the queue.
pub record JobManagerConfig : Type 0 where
  pub max_concurrent : ℤ
  pub max_queue : ℤ

pub record Manager : Type 0 where
  pub slots : List Slot
  pub held : ℕ  -- the length of `sem`

unfoldable pub or_default : ℤ → ℕ → ℕ
or_default (negsuc n) d = d
or_default (pos n) d = if n == 0 then d else n

-- `OpenJobManager`: the two sizes.
unfoldable pub semaphore_size : JobManagerConfig → ℕ
unfolding or_default
semaphore_size c = or_default c.max_concurrent 4

unfoldable pub queue_size : JobManagerConfig → ℕ
unfolding or_default
queue_size c = or_default c.max_queue 100

unfoldable pub is_pending : Slot → Bool
unfolding row_terminal
is_pending s = not (row_terminal s.row)

-- `countNonTerminal`.
unfoldable pub count_non_terminal : List Slot → ℕ
unfolding is_pending
count_non_terminal slots = count_if is_pending slots
