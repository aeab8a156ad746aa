-- ===== src/Queue/Rounds.antt =====
-- Joins and starts keep the rows of the queue in turn (internal/queue/sqlite_coordinator.go).
use tgup.Prelude.{ℕ, ◌≡◌, true, false, not, ◌&&◌, [], ◌∷◌, map, All, arith, ◌⊎◌}
use tgup.Prelude.Text.{Text, text_eq_iff, text_ltb_asym}
use tgup.Queue.Model.{QueueRow, is_live}
use tgup.Queue.Coordinator.{Rows, Coordinator, is_own, enqueue, before, mark_running, run_row}
use tgup.Queue.InTurn.{Agree, InTurn}

-- The row of a run, where there is one, is live and has the joining time that the run knows.
abbrev pub IsOwnLive : Coordinator → QueueRow → Type 0
IsOwnLive c row =
    (is_own c.run_id row ≡ false) ⊎ (is_live row.status ≡ true) × (row.created_at ≡ c.created_at)

-- A row that may stand in the table when a run starts.
abbrev pub IsClear : Coordinator → QueueRow → Type 0
IsClear c row = IsOwnLive c row × (is_live row.status && before row c.created_at c.run_id ≡ false)

module _ (c : Coordinator) (now : ℕ) where
  Agree-run_row :
      (a b : QueueRow)
      → IsClear c a
      → IsClear c b
      → Agree a b
      → Agree (run_row c.run_id now a) (run_row c.run_id now b)
  unfolding run_row before
  Agree-run_row a b p q h = ground (
    arith,
    text_eq_iff a.run_id c.run_id,
    text_eq_iff b.run_id c.run_id,
    text_eq_iff a.run_id b.run_id,
  )

  All-run_row :
      (a : QueueRow) (rows : Rows)
      → IsClear c a
      → All (IsClear c) rows
      → All (Agree a) rows
      → All (Agree (run_row c.run_id now a)) (map (run_row c.run_id now) rows)
  All-run_row a [] p q h = tt
  All-run_row a (row ∷ rows) p q h = (Agree-run_row a row p q.0 h.0, All-run_row a rows p q.1 h.1)

  pub InTurn-mark_running :
      (rows : Rows) → All (IsClear c) rows → InTurn rows → InTurn (mark_running c.run_id now rows)
  unfolding mark_running
  InTurn-mark_running [] q h = tt
  InTurn-mark_running (row ∷ rows) q h =
      (All-run_row row rows q.0 q.1 h.0, InTurn-mark_running rows q.1 h.1)

-- A run joins behind a row: it has another id, and if the row is live it comes before the run.
abbrev pub IsBehind : Text → ℕ → QueueRow → Type 0
IsBehind run_id now row =
    (is_own run_id row ≡ false) × (is_live row.status && not (before row now run_id) ≡ false)

module _ (run_id : Text) (now : ℕ) where
  All-enqueue :
      (a : QueueRow) (rows : Rows)
      → IsBehind run_id now a
      → All (IsBehind run_id now) rows
      → All (Agree a) rows
      → All (Agree a) (enqueue run_id now rows)
  unfolding enqueue before
  All-enqueue a [] p q h = (ground (arith, text_ltb_asym a.run_id run_id), tt)
  All-enqueue a (row ∷ rows) p q h = rw q.0.0 (h.0, All-enqueue a rows p q.1 h.1)

  pub InTurn-enqueue :
      (rows : Rows)
      → All (IsBehind run_id now) rows
      → InTurn rows
      → InTurn (enqueue run_id now rows)
  unfolding enqueue
  InTurn-enqueue [] q h = (tt, tt)
  InTurn-enqueue (row ∷ rows) q h =
      rw q.0.0 (All-enqueue row rows q.0 q.1 h.0, InTurn-enqueue rows q.1 h.1)
