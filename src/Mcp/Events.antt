-- ===== src/Mcp/Events.antt =====
-- The event store of the MCP server (internal/mcp/sqlite_events.go). The table mcp_events is the list
-- of its rows by their id, which is the order in which they were inserted; `next_id` is the next id
-- of the table. A subscriber's channel is the list of what it holds, the oldest first.
use tgup.Prelude.{
  ℕ, suc, ◌+◌, Bool, ◌&&◌, ◌||◌, List, [], ◌∷◌, ◌++◌, map, length, take, keep, Option, ltb, ◌==◌,
  if◌then◌else◌,
}
use tgup.Prelude.Text.{Text, codes, text_eq}
use tgup.Prelude.Int.{ℤ, pos, negsuc}
use tgup.Errors.{Error, Result, ok, err, wrapped, error_text}

pub record Event : Type 0 where
  pub seq : ℕ
  pub job_id : Text
  pub kind : Text  -- `Type`
  pub payload : Option Text
  pub terminal : Bool
  pub created_at : ℕ

pub record EventRow : Type 0 where
  pub id : ℕ
  pub event : Event

pub record Subscription : Type 0 where
  pub topic : Text  -- `jobID`; the empty text is every job
  pub channel : List Event

pub record EventStore : Type 0 where
  pub rows : List EventRow
  pub next_id : ℕ
  pub subscriptions : List Subscription

pub data Db : Type 0 where
  works : Db
  fails : Error → Db

unfoldable pub of_job : Text → EventRow → Bool
of_job job row = text_eq row.event.job_id job

-- `COALESCE(MAX(seq), 0)` over the rows of a job.
unfoldable pub max_seq : Text → List EventRow → ℕ
unfolding of_job
max_seq job [] = 0
max_seq job (row ∷ rows) =
    let rest = max_seq job rows in
    if of_job job row && ltb rest row.event.seq then row.event.seq else rest

-- One subscriber of `notify`: a channel of 64 that is full drops the event.
unfoldable pub notify_one : Event → Subscription → Subscription
notify_one e s =
    if (text_eq s.topic (codes "") || text_eq s.topic e.job_id) && ltb (length s.channel) 64
    then record s { channel = s.channel ++ e ∷ [] }
    else s

unfoldable pub notify : Event → EventStore → EventStore
unfolding notify_one
notify e s = record s { subscriptions = map (notify_one e) s.subscriptions }

-- `Append`, of an event whose time is set.
unfoldable pub append : Db → Event → EventStore → EventStore × Result Event
unfolding max_seq notify
append (fails e) event s = (s, err (wrapped (codes "event store: insert: " ++ error_text e) e))
append works event s =
    let numbered = record event { seq = max_seq event.job_id s.rows + 1 } in
    (
      notify numbered (record s {
        rows = s.rows ++ record { id = s.next_id; event = numbered } ∷ [];
        next_id = s.next_id + 1;
      }),
      ok numbered,
    )

-- `if limit <= 0 || limit > 1000 { limit = 1000 }`.
unfoldable pub limit_of : ℤ → ℕ
limit_of (pos n) = if n == 0 || ltb 1000 n then 1000 else n
limit_of (negsuc n) = 1000

-- The rows that the query of `List` selects, without its limit.
unfoldable pub selected : Text → ℕ → EventRow → Bool
unfolding of_job
selected job since row =
    if text_eq job (codes "") then ltb since row.id else of_job job row && ltb since row.event.seq

-- The event of a row: over all jobs its number is the row's id.
unfoldable pub listed : Text → EventRow → Event
listed job row = if text_eq job (codes "") then record row.event { seq = row.id } else row.event

-- `List`, with its events and `hasMore`.
unfoldable pub list : Db → Text → ℕ → ℤ → EventStore → Result (List Event × Bool)
unfolding selected listed limit_of
list (fails e) job since limit s = err (wrapped (codes "event store: list: " ++ error_text e) e)
list works job since limit s =
    let n = limit_of limit in
    let fetched = take (suc n) (map (listed job) (keep (selected job since) s.rows)) in
    ok (take n fetched, ltb n (length fetched))

-- `Register`.
unfoldable pub register : Text → EventStore → EventStore
register job s = record s {
  subscriptions = s.subscriptions ++ record { topic = job; channel = [] } ∷ [];
}
