-- ===== src/Queue/InTurn.antt =====
-- Tables of the queue whose rows are in turn, and the steps that start no run
-- (internal/queue/sqlite_coordinator.go).
use tgup.Prelude.{ℕ, ◌≡◌, Bool, true, false, ◌&&◌, [], ◌∷◌, map, All, arith}
use tgup.Prelude.Text.{Text, text_eq}
use tgup.Queue.Model.{RunStatus, running, QueueRow, is_live}
use tgup.Queue.Coordinator.{Rows, stale_row, before, beat_row, finish_row}

abbrev pub is_running : QueueRow → Bool
is_running row = elim row.status [ running ↦ true | _ ↦ false ]

-- A running row, and a live row that comes before it in the queue.
abbrev pub overtakes : QueueRow → QueueRow → Bool
overtakes row other =
    is_running row && is_live other.status && before other row.created_at row.run_id

-- Two rows of different runs, neither of which runs while the other, before it, is live.
abbrev pub Agree : QueueRow → QueueRow → Type 0
Agree a b = (text_eq a.run_id b.run_id ≡ false) × (overtakes a b ≡ false) × (overtakes b a ≡ false)

abbrev pub InTurn : Rows → Type 0
InTurn [] = Unit
InTurn (row ∷ rows) = All (Agree row) rows × InTurn rows

-- What a step that starts no run may do to a row.
pub record Calms (f : QueueRow → QueueRow) : Type 0 where
  pub same_id : (row : QueueRow) → (f row).run_id ≡ row.run_id
  pub same_time : (row : QueueRow) → (f row).created_at ≡ row.created_at
  pub no_start : (row : QueueRow) → is_running row ≡ false → is_running (f row) ≡ false
  pub no_rise : (row : QueueRow) → is_live row.status ≡ false → is_live (f row).status ≡ false

module _ (f : QueueRow → QueueRow) (calm : Calms f) where
  overtakes-calm : (a b : QueueRow) → overtakes a b ≡ false → overtakes (f a) (f b) ≡ false
  unfolding before
  overtakes-calm a b h = ground (
    arith,
    calm.same_id a,
    calm.same_id b,
    calm.same_time a,
    calm.same_time b,
    calm.no_start a,
    calm.no_rise b,
  )

  Agree-calm : (a b : QueueRow) → Agree a b → Agree (f a) (f b)
  Agree-calm a b h =
      (rw (calm.same_id a, calm.same_id b) h.0, overtakes-calm a b h.1, overtakes-calm b a h.2)

  All-calm : (a : QueueRow) (rows : Rows) → All (Agree a) rows → All (Agree (f a)) (map f rows)
  All-calm a [] h = tt
  All-calm a (row ∷ rows) h = (Agree-calm a row h.0, All-calm a rows h.1)

  pub InTurn-calm : (rows : Rows) → InTurn rows → InTurn (map f rows)
  InTurn-calm [] h = tt
  InTurn-calm (row ∷ rows) h = (All-calm row rows h.0, InTurn-calm rows h.1)

pub stale_row-calm : (now since : ℕ) (run_id : Text) → Calms (stale_row now since run_id)
unfolding stale_row
stale_row-calm now since run_id = record {
  same_id = λ row. ground arith;
  same_time = λ row. ground arith;
  no_start = λ row h. ground arith;
  no_rise = λ row h. ground arith;
}

pub beat_row-calm : (run_id : Text) (now : ℕ) → Calms (beat_row run_id now)
unfolding beat_row
beat_row-calm run_id now = record {
  same_id = λ row. ground arith;
  same_time = λ row. ground arith;
  no_start = λ row h. ground arith;
  no_rise = λ row h. ground arith;
}

pub finish_row-calm :
    (run_id : Text) (status : RunStatus) (now : ℕ)
    → is_live status ≡ false
    → Calms (finish_row run_id status now)
unfolding finish_row
finish_row-calm run_id status now over = record {
  same_id = λ row. ground arith;
  same_time = λ row. ground arith;
  no_start = λ row h. ground arith;
  no_rise = λ row h. ground arith;
}
