-- ===== src/Queue/Exclusion.antt =====
-- One run at a time: the coordinators of all processes over one table run_queue
-- (internal/queue/sqlite_coordinator.go), each statement a step.
use tgup.Prelude.{
  ℕ, ◌≤◌, ◌≡◌, refl, true, false, List, [], ◌∷◌, ◌++◌, ◌-◌, ◌<◌, map, All, All-imp, All-split,
  All-append, count_if, arith, Bool-cases, inl, inr,
}
use tgup.Prelude.Text.{Text, text_eq_iff, text_ltb_total}
use tgup.Queue.Model.{QueueRow, is_live}
use tgup.Queue.Coordinator.{
  Rows, Coordinator, Db, works, fails, is_own, enqueue, mark_stale, before, count_ahead,
  mark_running, heartbeat, finish, finish_status,
}
use tgup.Queue.InTurn.{
  Calms, Agree, InTurn, InTurn-calm, stale_row-calm, beat_row-calm, finish_row-calm, is_running,
}
use tgup.Queue.Rounds.{InTurn-enqueue, InTurn-mark_running, IsBehind, IsOwnLive}
use tgup.Queue.Cleared.{
  IsCleared, counted-IsCleared, calm-IsCleared, start-IsCleared, cleared-IsClear, join-IsCleared,
}

-- The table, and the runs that have counted no run ahead.
pub record Queue : Type 0 where
  pub rows : Rows
  pub cleared : List Coordinator

-- A statement of some process: a run with a new id joins behind all live runs; a run marks others
-- stale; a run that has joined counts no run ahead; a run that once counted none, and whose row is
-- still live, marks itself as running, whatever has happened since it counted; a run sends a
-- heartbeat, or ends with a status that is neither `waiting` nor `running`.
pub data Step : Queue → Queue → Type 0 where
  joins :
      (q : Queue) (run_id : Text) (now : ℕ)
      → All (IsBehind run_id now) q.rows
      → Step q (record q { rows = enqueue run_id now q.rows })
  marks :
      (q : Queue) (run_id : Text) (now ttl : ℕ)
      → Step q (record q { rows = mark_stale now ttl run_id q.rows })
  counts :
      (q : Queue) (c : Coordinator)
      → 0 < count_if (is_own c.run_id) q.rows
      → count_ahead c q.rows ≡ 0
      → Step q (record q { cleared = c ∷ q.cleared })
  starts :
      (rows : Rows) (before after : List Coordinator) (c : Coordinator) (now : ℕ)
      → All (IsOwnLive c) rows
      → Step
          (record { rows = rows; cleared = before ++ c ∷ after })
          (record { rows = mark_running c.run_id now rows; cleared = before ++ after })
  beats :
      (q : Queue) (db : Db) (c : Coordinator) (now : ℕ)
      → Step q (record q { rows = (heartbeat db c now q.rows).0 })
  ends :
      (q : Queue) (db : Db) (c : Coordinator) (status : Text) (now : ℕ)
      → is_live (finish_status status) ≡ false
      → Step q (record q { rows = (finish db c status now q.rows).0 })

pub data Reach : Queue → Type 0 where
  empty : Reach (record { rows = []; cleared = [] })
  next : {q q' : Queue} → Reach q → Step q q' → Reach q'

-- The rows are in turn, and the runs that have counted none ahead are cleared.
record IsOrdered (q : Queue) : Type 0 where
  in_turn : InTurn q.rows
  cleared : All (λ c. IsCleared c q.rows) q.cleared

calm-IsOrdered :
    (f : QueueRow → QueueRow)
    → Calms f
    → (q : Queue) → IsOrdered q
    → IsOrdered (record q { rows = map f q.rows })
calm-IsOrdered f calm q h = record {
  in_turn = InTurn-calm f calm q.rows h.in_turn;
  cleared = All-imp _ _ (λ c k. calm-IsCleared c f calm q.rows k) q.cleared h.cleared;
}

start-IsOrdered :
    (rows : Rows) (before after : List Coordinator) (c : Coordinator) (now : ℕ)
    → All (IsOwnLive c) rows
    → IsOrdered (record { rows = rows; cleared = before ++ c ∷ after })
    → IsOrdered (record { rows = mark_running c.run_id now rows; cleared = before ++ after })
start-IsOrdered rows before after c now own h =
    let (l, r) = All-split (λ d. IsCleared d rows) before (c ∷ after) h.cleared in
    record {
      in_turn = InTurn-mark_running c now rows (cleared-IsClear c rows own r.0) h.in_turn;
      cleared =
          All-imp _ _ (λ d k. start-IsCleared d c now rows own k) (before ++ after)
            (All-append (λ d. IsCleared d rows) before after l r.1);
    }

Step-IsOrdered : {q q' : Queue} → Step q q' → IsOrdered q → IsOrdered q'
unfolding mark_stale heartbeat finish
Step-IsOrdered (joins q run_id now behind) h = record {
  in_turn = InTurn-enqueue run_id now q.rows behind h.in_turn;
  cleared = All-imp _ _ (λ c k. join-IsCleared c run_id now q.rows behind k) q.cleared h.cleared;
}
Step-IsOrdered (marks q run_id now ttl) h =
    calm-IsOrdered _ (stale_row-calm now (now - ttl) run_id) q h
Step-IsOrdered (counts q c joined none_ahead) h = record {
  in_turn = h.in_turn;
  cleared = (counted-IsCleared c q.rows joined none_ahead, h.cleared);
}
Step-IsOrdered (starts rows before after c now own) h =
    start-IsOrdered rows before after c now own h
Step-IsOrdered (beats q works c now) h = calm-IsOrdered _ (beat_row-calm c.run_id now) q h
Step-IsOrdered (beats q (fails e) c now) h = h
Step-IsOrdered (ends q works c status now over) h =
    calm-IsOrdered _ (finish_row-calm c.run_id (finish_status status) now over) q h
Step-IsOrdered (ends q (fails e) c status now over) h = h

Reach-IsOrdered : {q : Queue} → Reach q → IsOrdered q
Reach-IsOrdered empty = record { in_turn = tt; cleared = tt }
Reach-IsOrdered (next r st) = Step-IsOrdered st (Reach-IsOrdered r)

-- Of two rows in turn at most one runs.
Agree-one : (a b : QueueRow) → Agree a b → is_running a ≡ true → is_running b ≡ false
unfolding before
Agree-one a b h run =
    ground (arith, text_eq_iff a.run_id b.run_id, text_ltb_total a.run_id b.run_id)

none_running :
    (a : QueueRow) (rows : Rows)
    → is_running a ≡ true
    → All (Agree a) rows
    → count_if is_running rows ≡ 0
none_running a [] run h = refl
none_running a (row ∷ rows) run h = rw (Agree-one a row h.0 run) (none_running a rows run h.1)

InTurn-one : (rows : Rows) → InTurn rows → count_if is_running rows ≤ 1
InTurn-one [] h = omega arith
InTurn-one (row ∷ rows) h = elim (Bool-cases (is_running row)) [
  | inl run ↦ rw (run, none_running row rows run h.0) (omega arith)
  | inr idle ↦ rw idle (InTurn-one rows h.1)
]

-- At most one run is running in every table that the coordinators reach from the empty one, their
-- statements in any order, with any clocks and failing heartbeats and ends, as long as each run joins
-- with a new id behind all live runs, a run whose own row has been marked stale does not go on to mark
-- itself as running, no run ends as waiting or running, and no rows are removed.
pub mutual_exclusion : {q : Queue} → Reach q → count_if is_running q.rows ≤ 1
mutual_exclusion {q} r = InTurn-one q.rows (Reach-IsOrdered r).in_turn
