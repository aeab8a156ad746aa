-- ===== src/Queue/Coordinator.antt =====
-- The operations of `SQLiteCoordinator` (internal/queue/sqlite_coordinator.go). A statement does
-- what it says, or fails with the driver's error and changes nothing. Times are in seconds.
use tgup.Prelude.{
  ℕ, ◌-◌, Bool, true, false, not, ◌&&◌, ◌||◌, List, [], ◌∷◌, map, Option, none, some, count_if, ltb,
  ◌==◌, if◌then◌else◌,
}
use tgup.Prelude.Text.{Text, codes, text_eq, text_ltb}
use tgup.Errors.{Error, wrapped}
use tgup.Queue.Model.{RunStatus, waiting, running, stale, status_of, QueueRow, is_live}

abbrev pub Rows : Type 0
Rows = List QueueRow

-- `created_at` is 0 until the run has joined the queue.
pub record Coordinator : Type 0 where
  pub run_id : Text
  pub heartbeat_ttl : ℕ
  pub created_at : ℕ

-- How the driver answers a statement.
pub data Db : Type 0 where
  works : Db
  fails : Error → Db

abbrev pub is_own : Text → QueueRow → Bool
is_own run_id row = text_eq row.run_id run_id

-- The `INSERT … ON CONFLICT(run_id)` of `WaitUntilTurn`: a row that is there keeps its
-- `created_at`.
unfoldable pub enqueue : Text → ℕ → Rows → Rows
enqueue run_id now [] =
    record {
      run_id = run_id;
      status = waiting;
      created_at = now;
      heartbeat_at = now;
      finished_at = 0;
    }
    ∷ []
enqueue run_id now (row ∷ rows) =
    let rest = enqueue run_id now rows in
    if is_own run_id row
    then record row { status = waiting; heartbeat_at = now; finished_at = 0 } ∷ rows
    else row ∷ rest

-- `markStale`; `since` is `staleBefore`.
unfoldable pub stale_row : ℕ → ℕ → Text → QueueRow → QueueRow
stale_row now since run_id row =
    if is_live row.status && ltb row.heartbeat_at since && not (is_own run_id row)
    then record row { status = stale; finished_at = now }
    else row

unfoldable pub mark_stale : ℕ → ℕ → Text → Rows → Rows
unfolding stale_row
mark_stale now ttl run_id rows = map (stale_row now (now - ttl) run_id) rows

-- The order of the queue.
unfoldable pub before : QueueRow → ℕ → Text → Bool
before row created_at run_id =
    ltb row.created_at created_at || row.created_at == created_at && text_ltb row.run_id run_id

-- `countAhead`.
unfoldable pub count_ahead : Coordinator → Rows → ℕ
unfolding before
count_ahead c rows = count_if (λ r. is_live r.status && before r c.created_at c.run_id) rows

-- The `UPDATE` that marks the run as running.
unfoldable pub run_row : Text → ℕ → QueueRow → QueueRow
run_row run_id now row =
    if is_own run_id row then record row { status = running; heartbeat_at = now } else row

unfoldable pub mark_running : Text → ℕ → Rows → Rows
unfolding run_row
mark_running run_id now rows = map (run_row run_id now) rows

unfoldable pub beat_row : Text → ℕ → QueueRow → QueueRow
beat_row run_id now row = if is_own run_id row then record row { heartbeat_at = now } else row

-- `Heartbeat`.
unfoldable pub heartbeat : Db → Coordinator → ℕ → Rows → Rows × Option Error
unfolding beat_row
heartbeat works c now rows = (map (beat_row c.run_id now) rows, none)
heartbeat (fails e) c now rows = (rows, some (wrapped (codes "heartbeat") e))

unfoldable pub finish_row : Text → RunStatus → ℕ → QueueRow → QueueRow
finish_row run_id status now row =
    if is_own run_id row
    then record row { status = status; heartbeat_at = now; finished_at = now }
    else row

-- The status that `Finish` writes.
unfoldable pub finish_status : Text → RunStatus
unfolding status_of
finish_status status = status_of (if text_eq status [] then codes "finished" else status)

-- `Finish`.
unfoldable pub finish : Db → Coordinator → Text → ℕ → Rows → Rows × Option Error
unfolding finish_row finish_status
finish works c status now rows = (map (finish_row c.run_id (finish_status status) now) rows, none)
finish (fails e) c status now rows = (rows, some (wrapped (codes "finish") e))

-- `Cancel`.
unfoldable pub cancel : Db → Coordinator → ℕ → Rows → Rows × Option Error
unfolding finish
cancel db c now rows = finish db c (codes "canceled") now rows

-- What one round of the loop in `WaitUntilTurn` comes to.
pub data Turn : Type 0 where
  turn : Turn
  ahead : ℕ → Turn
  failed : Error → Turn

-- How the driver answers the statements of a round, and the clock at the first and the last.
pub record Round : Type 0 where
  pub mark : Db
  pub count : Db
  pub run : Db
  pub now : ℕ
  pub later : ℕ

unfoldable pub take_turn : Round → Coordinator → Rows → ℕ → Rows × Turn
unfolding mark_running
take_turn r c rows n =
    if n == 0
    then elim r.run [
      | works ↦ (mark_running c.run_id r.later rows, turn)
      | fails e ↦ (rows, failed (wrapped (codes "mark running") e))
    ]
    else (rows, ahead n)

unfoldable pub count_round : Round → Coordinator → Rows → Rows × Turn
unfolding take_turn count_ahead
count_round r c rows = elim r.count [
  | works ↦ take_turn r c rows (count_ahead c rows)
  | fails e ↦ (rows, failed (wrapped (codes "count ahead") e))
]

-- The three statements of a round with none of another run between them; Queue/Exclusion takes each
-- statement as a step of its own.
unfoldable pub round : Round → Coordinator → Rows → Rows × Turn
unfolding count_round mark_stale
round r c rows = elim r.mark [
  | works ↦ count_round r c (mark_stale r.now c.heartbeat_ttl c.run_id rows)
  | fails e ↦ (rows, failed (wrapped (codes "mark stale") e))
]

-- The start of `WaitUntilTurn`, which joins the queue once.
unfoldable pub join : Db → Coordinator → ℕ → Rows → Coordinator × Rows × Option Error
unfolding enqueue
join db c now rows =
    let c' = record c { created_at = now } in
    if c.created_at == 0
    then elim db [
      | works ↦ (c', enqueue c.run_id now rows, none)
      | fails e ↦ (c', rows, some (wrapped (codes "register run queue row") e))
    ]
    else (c, rows, none)

-- What happens while a round waits: other runs change the table, and the context may end.
pub record Pause : Type 0 where
  pub others : Rows → Rows
  pub canceled : Bool

-- How a wait ends; `still_waiting` where the rounds given are used up.
pub data Outcome : Type 0 where
  got_turn : Outcome
  wait_failed : Error → Outcome
  context_done : Outcome
  still_waiting : ℕ → Outcome

-- The loop of `WaitUntilTurn`, over its rounds and the pauses after them.
unfoldable pub wait_rounds : Coordinator → List (Round × Pause) → Rows → ℕ → Rows × Outcome
unfolding round
wait_rounds c [] rows n = (rows, still_waiting n)
wait_rounds c ((r, p) ∷ rest) rows n =
    let (rows', t) = round r c rows in
    elim t [
      | turn ↦ (rows', got_turn)
      | failed e ↦ (rows', wait_failed e)
      | ahead k ↦ elim p.canceled [
        | true ↦ (p.others rows', context_done)
        | false ↦ wait_rounds c rest (p.others rows') k
      ]
    ]
