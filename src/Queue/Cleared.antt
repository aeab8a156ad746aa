-- ===== src/Queue/Cleared.antt =====
-- Runs that have counted no run ahead and have not started yet (internal/queue/sqlite_coordinator.go:
-- `WaitUntilTurn`, between `countAhead` and its last statement).
use tgup.Prelude.{
  ℕ, ◌<◌, ◌≡◌, refl, Bool, true, false, ◌&&◌, [], ◌∷◌, ◌++◌, map, All, All-imp, All-both,
  All-count_if, count_if, count_if-map, count_if-All, count_if-append, count_if-eq_zero, ◌==◌,
  arith, Bool-cases, inl, inr, ap, sym,
}
use tgup.Prelude.Text.{Text, text_eq, text_eq_iff, text_ltb_asym}
use tgup.Queue.Model.{waiting, QueueRow, is_live}
use tgup.Queue.Coordinator.{
  Rows, Coordinator, is_own, enqueue, before, count_ahead, mark_running, run_row,
}
use tgup.Queue.InTurn.{Calms}
use tgup.Queue.Rounds.{IsOwnLive, IsClear, IsBehind}

-- A run's own live row with the joining time that the run knows.
abbrev is_ready : Coordinator → QueueRow → Bool
is_ready c row = is_own c.run_id row && (is_live row.status && row.created_at == c.created_at)

-- A live row before a run.
abbrev goes_first : Coordinator → QueueRow → Bool
goes_first c row = is_live row.status && before row c.created_at c.run_id

-- The run has joined; as long as its row stays live, no live row is before it.
pub record IsCleared (c : Coordinator) (rows : Rows) : Type 0 where
  pub joined : 0 < count_if (is_own c.run_id) rows
  pub none_first : 0 < count_if (is_ready c) rows → count_if (goes_first c) rows ≡ 0

pub counted-IsCleared :
    (c : Coordinator) (rows : Rows)
    → 0 < count_if (is_own c.run_id) rows
    → count_ahead c rows ≡ 0
    → IsCleared c rows
unfolding count_ahead
counted-IsCleared c rows joined none_ahead = record {
  joined = joined;
  none_first = λ ready. none_ahead;
}

-- What a change of a row keeps of a run.
record Keeps (c : Coordinator) (f : QueueRow → QueueRow) (row : QueueRow) : Type 0 where
  own : is_own c.run_id row ≡ true → is_own c.run_id (f row) ≡ true
  ready : is_ready c (f row) ≡ true → is_ready c row ≡ true
  first : goes_first c (f row) ≡ true → goes_first c row ≡ true

map-IsCleared :
    (c : Coordinator) (f : QueueRow → QueueRow) (rows : Rows)
    → All (Keeps c f) rows
    → IsCleared c rows
    → IsCleared c (map f rows)
map-IsCleared c f rows keeps h =
    let own = count_if-map f (is_own c.run_id) rows in
    let ready = count_if-map f (is_ready c) rows in
    let first = count_if-map f (goes_first c) rows in
    let own_le =
      count_if-All (is_own c.run_id) (λ r. is_own c.run_id (f r)) rows
        (All-imp _ _ (λ r k. k.own) rows keeps) in
    let ready_le =
      count_if-All (λ r. is_ready c (f r)) (is_ready c) rows
        (All-imp _ _ (λ r k. k.ready) rows keeps) in
    let first_le =
      count_if-All (λ r. goes_first c (f r)) (goes_first c) rows
        (All-imp _ _ (λ r k. k.first) rows keeps) in
    let joined = h.joined in
    record {
      joined = omega arith;
      none_first = λ some_ready. let none_first = h.none_first (omega arith) in omega arith;
    }

calm-Keeps :
    (c : Coordinator) (f : QueueRow → QueueRow) → Calms f → (row : QueueRow) → Keeps c f row
unfolding before
calm-Keeps c f calm row = record {
  own = ground (arith, calm.same_id row);
  ready = ground (arith, calm.same_id row, calm.same_time row, calm.no_rise row);
  first = ground (arith, calm.same_id row, calm.same_time row, calm.no_rise row);
}

every : {P : QueueRow → Type 0} → ((row : QueueRow) → P row) → (rows : Rows) → All P rows
every h [] = tt
every h (row ∷ rows) = (h row, every h rows)

pub calm-IsCleared :
    (c : Coordinator) (f : QueueRow → QueueRow)
    → Calms f
    → (rows : Rows) → IsCleared c rows
    → IsCleared c (map f rows)
calm-IsCleared c f calm rows = map-IsCleared c f rows (every (calm-Keeps c f calm) rows)

run_row-Keeps :
    (c d : Coordinator) (now : ℕ) (row : QueueRow)
    → IsOwnLive d row
    → Keeps c (run_row d.run_id now) row
unfolding run_row before
run_row-Keeps c d now row own = record {
  own = ground arith;
  ready = ground arith;
  first = ground arith;
}

-- Another run's start leaves a run cleared.
pub start-IsCleared :
    (c d : Coordinator) (now : ℕ) (rows : Rows)
    → All (IsOwnLive d) rows
    → IsCleared c rows
    → IsCleared c (mark_running d.run_id now rows)
unfolding mark_running
start-IsCleared c d now rows own =
    map-IsCleared c (run_row d.run_id now) rows
      (All-imp (IsOwnLive d) _ (run_row-Keeps c d now) rows own)

-- A run that is cleared and whose row is live may start.
pub cleared-IsClear :
    (c : Coordinator) (rows : Rows)
    → All (IsOwnLive c) rows
    → IsCleared c rows
    → All (IsClear c) rows
cleared-IsClear c rows own h =
    let le =
      count_if-All (is_own c.run_id) (is_ready c) rows
        (All-imp (IsOwnLive c) _ (λ row live mine. ground arith) rows own) in
    let joined = h.joined in
    All-both _ _ rows own (count_if-eq_zero _ rows (h.none_first (omega arith)))

abbrev new_row : Text → ℕ → QueueRow
new_row run_id now = record {
  run_id = run_id;
  status = waiting;
  created_at = now;
  heartbeat_at = now;
  finished_at = 0;
}

enqueue-append :
    (run_id : Text) (now : ℕ) (rows : Rows)
    → All (IsBehind run_id now) rows
    → enqueue run_id now rows ≡ rows ++ new_row run_id now ∷ []
unfolding enqueue
enqueue-append run_id now [] h = refl
enqueue-append run_id now (row ∷ rows) h =
    rw h.0.0 (ap (λ l. row ∷ l) (enqueue-append run_id now rows h.1))

-- A run joins behind a ready one.
ready-before :
    (c : Coordinator) (run_id : Text) (now : ℕ) (rows : Rows)
    → All (IsBehind run_id now) rows
    → 0 < count_if (is_ready c) rows
    → goes_first c (new_row run_id now) ≡ false
unfolding before
ready-before c run_id now [] h some_ready = absurd (omega arith)
ready-before c run_id now (row ∷ rows) h some_ready = elim (Bool-cases (is_ready c row)) [
  | inl here ↦
      let behind = h.0.1 in
      ground (arith, text_eq_iff row.run_id c.run_id, text_ltb_asym c.run_id run_id)
  | inr other ↦ ready-before c run_id now rows h.1 (ground arith)
]

none_own :
    (c : Coordinator) (run_id : Text) (now : ℕ) (rows : Rows)
    → c.run_id ≡ run_id
    → All (IsBehind run_id now) rows
    → count_if (is_own c.run_id) rows ≡ 0
none_own c run_id now rows same h =
    rw same
      (All-count_if (is_own run_id) rows (All-imp (IsBehind run_id now) _ (λ row b. b.0) rows h))

-- A new run's join leaves a run cleared.
pub join-IsCleared :
    (c : Coordinator) (run_id : Text) (now : ℕ) (rows : Rows)
    → All (IsBehind run_id now) rows
    → IsCleared c rows
    → IsCleared c (enqueue run_id now rows)
join-IsCleared c run_id now rows behind h = elim (Bool-cases (text_eq run_id c.run_id)) [
  | inl same ↦
      let joined = h.joined in
      absurd (
        omega (
          arith,
          joined,
          none_own c run_id now rows (sym ((text_eq_iff run_id c.run_id).0 same)) behind,
        ))
  | inr other ↦
      let joined = h.joined in
      rw (enqueue-append run_id now rows behind) (record {
        joined = rw (count_if-append, other) (omega arith);
        none_first =
            rw (count_if-append, count_if-append, other)
              (λ some_ready.
                let ready : 0 < count_if (is_ready c) rows = omega arith in
                let none_first = h.none_first ready in
                rw (ready-before c run_id now rows behind ready) (omega arith));
      })
]
