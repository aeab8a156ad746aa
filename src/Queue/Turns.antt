-- ===== src/Queue/Turns.antt =====
-- When `WaitUntilTurn` of internal/queue/sqlite_coordinator.go gives a run its turn.
use mathlib.Core.Path.{fun_ext}
use tgup.Prelude.{
  ℕ, ◌-◌, ◌≡◌, ap, ◌∙◌, Bool, not, ◌&&◌, ◌||◌, count_if, count_if-map, ltb, ◌==◌, if◌then◌else◌,
  arith,
}
use tgup.Queue.Model.{QueueRow, is_live}
use tgup.Queue.Coordinator.{
  Rows, Coordinator, works, is_own, stale_row, mark_stale, before, count_ahead, turn, ahead, Round,
  take_turn, round,
}

-- A run that keeps another from its turn: it is earlier in the order, it waits or runs, and it
-- has been heard of since a time, unless it is the run itself.
abbrev pub blocks : ℕ → Coordinator → QueueRow → Bool
blocks since c row =
    is_live row.status
    && before row c.created_at c.run_id
    && (is_own c.run_id row || not (ltb row.heartbeat_at since))

blocks-stale_row :
    (now since : ℕ) (c : Coordinator) (row : QueueRow)
    → let row' = stale_row now since c.run_id row in
      is_live row'.status && before row' c.created_at c.run_id ≡ blocks since c row
unfolding stale_row before
blocks-stale_row now since c row = ground arith

count_ahead-mark_stale :
    (now ttl : ℕ) (c : Coordinator) (rows : Rows)
    → count_ahead c (mark_stale now ttl c.run_id rows) ≡ count_if (blocks (now - ttl) c) rows
unfolding count_ahead mark_stale
count_ahead-mark_stale now ttl c rows =
    count_if-map (stale_row now (now - ttl) c.run_id) _ rows
    ∙ ap (λ p. count_if p rows) (fun_ext (blocks-stale_row now (now - ttl) c))

-- In a round in which the driver works a run gets its turn exactly if no run before it in the
-- order (by joining time, then run id) both waits or runs and sent a heartbeat within the time
-- to live; otherwise it learns how many such runs there are.
pub round_outcome :
    (r : Round) (c : Coordinator) (rows : Rows)
    → r.mark ≡ works
    → r.count ≡ works
    → r.run ≡ works
    → let n = count_if (blocks (r.now - c.heartbeat_ttl) c) rows in
      (round r c rows).1 ≡ (if n == 0 then turn else ahead n)
unfolding round take_turn
round_outcome r c rows m k w =
    rw (m, k, w, count_ahead-mark_stale r.now c.heartbeat_ttl c rows) (ground arith)
