-- ===== src/Queue/Races.antt =====
-- Histories of internal/queue/sqlite_coordinator.go in which runs do not take turns.
use mathlib.Core.List.{map-append}
use tgup.Prelude.{
  ℕ, suc, ◌-◌, ◌<◌, ◌≤◌, ◌≡◌, ◌≢◌, refl, ap, Bool, true, false, ◌&&◌, List, [], ◌∷◌, ◌++◌, map, All,
  All-imp, count_if, count_if-append, count_if-map, count_if-imp, All-count_if, map-fixed, ltb,
  ◌==◌, ==_iff, arith, Bool-cases, inl, inr, none,
}
use tgup.Prelude.Text.{Text, codes, text_eq_refl, text_ltb_irrefl}
use tgup.Errors.{wrapped}
use tgup.Queue.Model.{waiting, running, QueueRow, is_live}
use tgup.Queue.Coordinator.{
  Rows, Coordinator, Db, works, fails, is_own, enqueue, stale_row, mark_stale, before, count_ahead,
  run_row, Turn, turn, ahead, failed, Round, take_turn, count_round, round, Pause, Outcome,
  got_turn, wait_failed, context_done, wait_rounds, join,
}
use tgup.Queue.Turns.{blocks}
use tgup.Queue.InTurn.{is_running}

-- A row that is there when a run with an earlier key joins: it is another run's, it has sent a
-- heartbeat in time, and it does not come before the run.
abbrev pub IsPassedBy : Text → ℕ → ℕ → QueueRow → Type 0
IsPassedBy run_id now ttl row =
    (is_own run_id row ≡ false)
    × (ltb row.heartbeat_at (now - ttl) ≡ false)
    × (before row now run_id ≡ false)

abbrev joined_row : Text → ℕ → QueueRow
joined_row run_id now = record {
  run_id = run_id;
  status = waiting;
  created_at = now;
  heartbeat_at = now;
  finished_at = 0;
}

module _ (run_id : Text) (now ttl : ℕ) where
  enqueue-new :
      (rows : Rows)
      → All (IsPassedBy run_id now ttl) rows
      → enqueue run_id now rows ≡ rows ++ joined_row run_id now ∷ []
  unfolding enqueue
  enqueue-new [] h = refl
  enqueue-new (row ∷ rows) h = rw h.0.0 (ap (◌∷◌ row) (enqueue-new rows h.1))

  stale_row-passed :
      (row : QueueRow) → IsPassedBy run_id now ttl row → stale_row now (now - ttl) run_id row ≡ row
  unfolding stale_row
  stale_row-passed row h = ground arith

  stale_row-joined :
      stale_row now (now - ttl) run_id (joined_row run_id now) ≡ joined_row run_id now
  unfolding stale_row
  stale_row-joined = ground (arith, text_eq_refl run_id)

  mark_stale-joined :
      (rows : Rows)
      → All (IsPassedBy run_id now ttl) rows
      → mark_stale now ttl run_id (rows ++ joined_row run_id now ∷ [])
        ≡ rows ++ joined_row run_id now ∷ []
  unfolding mark_stale
  mark_stale-joined rows h =
      rw (map-append, map-fixed _ rows (All-imp _ _ stale_row-passed rows h), stale_row-joined)

  count_ahead-joined :
      (c : Coordinator) (rows : Rows)
      → c.run_id ≡ run_id
      → c.created_at ≡ now
      → All (IsPassedBy run_id now ttl) rows
      → count_ahead c (rows ++ joined_row run_id now ∷ []) ≡ 0
  unfolding count_ahead before
  count_ahead-joined c rows e f h =
      rw (count_if-append, e, f)
        (ground (
          arith,
          All-count_if (λ r. is_live r.status && before r now run_id) rows
              (All-imp _ _ (λ r p. passed r p.2) rows h),
          text_ltb_irrefl run_id,
        ))
    where
      passed :
          (r : QueueRow)
          → before r now run_id ≡ false
          → (is_live r.status && before r now run_id) ≡ false
      passed r p = rw p (ground arith)

  run_row-passed :
      (later : ℕ) (row : QueueRow) → IsPassedBy run_id now ttl row → run_row run_id later row ≡ row
  unfolding run_row
  run_row-passed later row h = rw h.0

  run_row-joined :
      (later : ℕ)
      → run_row run_id later (joined_row run_id now)
        ≡ record (joined_row run_id now) { status = running; heartbeat_at = later }
  unfolding run_row
  run_row-joined later = rw (text_eq_refl run_id)

-- A run that joins while every run in the table has a later key (a later joining time, or the
-- same second and a greater run id) and a heartbeat in time gets its turn at once, beside any
-- run that is running: the number of running runs goes up by one.
pub late_join_runs_beside :
    (c : Coordinator) (r : Round) (rows : Rows)
    → r.mark ≡ works
    → r.count ≡ works
    → r.run ≡ works
    → c.created_at ≡ r.now
    → All (IsPassedBy c.run_id r.now c.heartbeat_ttl) rows
    → let after = round r c (enqueue c.run_id r.now rows) in
      (after.1 ≡ turn) × (count_if is_running after.0 ≡ suc (count_if is_running rows))
unfolding round take_turn
late_join_runs_beside c r rows m k w at h =
    rw
      (
        enqueue-new c.run_id r.now c.heartbeat_ttl rows h,
        m,
        mark_stale-joined c.run_id r.now c.heartbeat_ttl rows h,
        k,
        count_ahead-joined c.run_id r.now c.heartbeat_ttl c rows refl at h,
        w,
      )
      (refl, ran)
  where
    ran :
        count_if is_running
          (map (run_row c.run_id r.later) (rows ++ joined_row c.run_id r.now ∷ []))
        ≡ suc (count_if is_running rows)
    ran =
        rw
          (
            map-append,
            map-fixed _ rows
                (All-imp _ _ (run_row-passed c.run_id r.now c.heartbeat_ttl r.later) rows h),
            run_row-joined c.run_id r.now c.heartbeat_ttl r.later,
            count_if-append,
          )
          (omega arith)

-- A row of the run itself, live, with an earlier joining time than the run goes by.
abbrev pub is_former : Coordinator → QueueRow → Bool
is_former c row = is_own c.run_id row && is_live row.status && ltb row.created_at c.created_at

former-blocks :
    (since : ℕ) (c : Coordinator) (row : QueueRow)
    → is_former c row ≡ true
    → blocks since c row ≡ true
unfolding before
former-blocks since c row h = ground arith

former-stale_row :
    (now since : ℕ) (c : Coordinator) (row : QueueRow)
    → is_former c row ≡ true
    → is_former c (stale_row now since c.run_id row) ≡ true
unfolding stale_row
former-stale_row now since c row h = ground arith

former-mark_stale :
    (now ttl : ℕ) (c : Coordinator) (rows : Rows)
    → count_if (is_former c) rows ≤ count_if (is_former c) (mark_stale now ttl c.run_id rows)
unfolding mark_stale
former-mark_stale now ttl c rows =
    rw (count_if-map (stale_row now (now - ttl) c.run_id) (is_former c) rows)
      (count_if-imp (is_former c) _ rows (former-stale_row now (now - ttl) c))

former-count_ahead :
    (c : Coordinator) (rows : Rows) → count_if (is_former c) rows ≤ count_ahead c rows
unfolding count_ahead before
former-count_ahead c rows = count_if-imp (is_former c) _ rows (λ row h. ground arith)

-- Of a round: it gives no turn, and leaves the former row.
abbrev Blocked : Coordinator → Rows × Turn → Type 0
Blocked c result = (result.1 ≢ turn) × (0 < count_if (is_former c) result.0)

round-Blocked :
    (r : Round) (c : Coordinator) (rows : Rows)
    → 0 < count_if (is_former c) rows
    → Blocked c (round r c rows)
unfolding round
round-Blocked r c rows h = marked r.mark
  where
    rows' : Rows
    rows' = mark_stale r.now c.heartbeat_ttl c.run_id rows

    there : 0 < count_if (is_former c) rows'
    there = omega (arith, former-mark_stale r.now c.heartbeat_ttl c rows)

    counted :
        (db : Db)
        → Blocked c (elim db as (λ x. Rows × Turn) [
          | works ↦ take_turn r c rows' (count_ahead c rows')
          | fails e ↦ (rows', failed (wrapped (codes "count ahead") e))
        ])
    counted works =
        unfold take_turn in
        elim (Bool-cases (count_ahead c rows' == 0)) [
          | inl first ↦ absurd (
              omega (
                arith,
                there,
                former-count_ahead c rows',
                (==_iff (count_ahead c rows') 0).0 first,
              ))
          | inr busy ↦ rw busy ((λ e. cc), there)
        ]
    counted (fails e) = ((λ e. cc), there)

    marked :
        (db : Db)
        → Blocked c (elim db as (λ x. Rows × Turn) [
          | works ↦ count_round r c rows'
          | fails e ↦ (rows, failed (wrapped (codes "mark stale") e))
        ])
    marked works = unfold count_round in counted r.count
    marked (fails e) = ((λ e. cc), h)

-- What others do in a pause leaves the former row.
abbrev pub SparesFormer : Coordinator → Round × Pause → Type 0
SparesFormer c step =
    (rows : Rows)
    → 0 < count_if (is_former c) rows
    → 0 < count_if (is_former c) (step.1.others rows)

former_never_turn :
    (c : Coordinator) (steps : List (Round × Pause)) (rows : Rows) (n : ℕ)
    → 0 < count_if (is_former c) rows
    → All (SparesFormer c) steps
    → (wait_rounds c steps rows n).1 ≢ got_turn
unfolding wait_rounds
former_never_turn c [] rows n h spares = λ e. cc
former_never_turn c ((r, p) ∷ rest) rows n h spares =
    let (no_turn, there) = round-Blocked r c rows h in
    waited (round r c rows).1 p.canceled no_turn (λ k.
      former_never_turn c rest (p.others (round r c rows).0) k (spares.0 (round r c rows).0 there)
        spares.1)
  where
    waited :
        (t : Turn) (stop : Bool)
        → t ≢ turn
        → ((k : ℕ) → (wait_rounds c rest (p.others (round r c rows).0) k).1 ≢ got_turn)
        → (elim t as (λ x. Rows × Outcome) [
          | turn ↦ ((round r c rows).0, got_turn)
          | failed e ↦ ((round r c rows).0, wait_failed e)
          | ahead k ↦ elim stop [
            | true ↦ (p.others (round r c rows).0, context_done)
            | false ↦ wait_rounds c rest (p.others (round r c rows).0) k
          ]
        ]).1
          ≢ got_turn
    waited turn stop no_turn again = absurd (no_turn refl)
    waited (failed e) stop no_turn again = λ e. cc
    waited (ahead k) true no_turn again = λ e. cc
    waited (ahead k) false no_turn again = again k

-- A row with the id of a run that joins: the join makes it wait again, and leaves its joining time.
enqueue-former :
    (c : Coordinator) (now : ℕ) (before after : Rows) (old : QueueRow)
    → c.created_at ≡ now
    → All (λ row. is_own c.run_id row ≡ false) before
    → is_own c.run_id old ≡ true
    → old.created_at < now
    → 0 < count_if (is_former c) (enqueue c.run_id now (before ++ old ∷ after))
unfolding enqueue
enqueue-former c now [] after old at others own earlier = rw own (ground (arith, own, at, earlier))
enqueue-former c now (row ∷ before) after old at others own earlier =
    rw others.0 (ground (arith, enqueue-former c now before after old at others.1 own earlier))

-- A run that joins under an id that a row of an earlier second already has, whatever that row's
-- status, waits for itself: its join succeeds, and after it the run never gets its turn, in any
-- number of rounds, with any clocks and driver, as long as the others, who act between the rounds,
-- leave that row live with an earlier joining time.
pub rejoin_never_turn :
    (c : Coordinator) (now : ℕ) (before after : Rows) (old : QueueRow)
    (steps : List (Round × Pause)) (n : ℕ)
    → c.created_at ≡ 0
    → All (λ row. is_own c.run_id row ≡ false) before
    → is_own c.run_id old ≡ true
    → old.created_at < now
    → All (SparesFormer (record c { created_at = now })) steps
    → let (joined, rows, error) = join works c now (before ++ old ∷ after) in
      (joined ≡ record c { created_at = now })
      × (error ≡ none)
      × ((wait_rounds joined steps rows n).1 ≢ got_turn)
unfolding join
rejoin_never_turn c now before after old steps n new others own earlier spares = rw new (
  refl,
  refl,
  former_never_turn (record c { created_at = now }) steps
      (enqueue c.run_id now (before ++ old ∷ after)) n
      (enqueue-former (record c { created_at = now }) now before after old refl others own earlier)
      spares,
)
