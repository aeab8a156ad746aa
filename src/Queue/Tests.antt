-- ===== src/Queue/Tests.antt =====
-- Tests of the queue: three runs in one table.
use Prim.Native.String.{String}
use tgup.Prelude.{ℕ, ◌≡◌, ◌≢◌, ◌≤◌, refl, false, [], ◌∷◌, count_if, arith, inl, inr, none}
use tgup.Prelude.Text.{codes, text_eq, text_ltb}
use tgup.Queue.Model.{running}
use tgup.Queue.Coordinator.{
  Rows, Coordinator, works, enqueue, stale_row, before, count_ahead, mark_running, run_row, turn,
  ahead, Round, round, take_turn, Pause, got_turn, wait_rounds, join,
}
use tgup.Queue.InTurn.{is_running}
use tgup.Queue.Exclusion.{Reach, empty, next, joins, counts, starts, mutual_exclusion}
use tgup.Queue.Races.{late_join_runs_beside, rejoin_never_turn}

abbrev run : String → ℕ → Coordinator
run id at = record { run_id = codes id; heartbeat_ttl = 30; created_at = at }

abbrev at_time : ℕ → Round
at_time now = record { mark = works; count = works; run = works; now = now; later = now }

abbrev two_runs : Rows
two_runs =
    enqueue (codes "b") 101 (round (at_time 100) (run "a" 100) (enqueue (codes "a") 100 [])).0

second_waits : (round (at_time 105) (run "b" 101) two_runs).1 ≡ ahead 1
unfolding round enqueue stale_row run_row count_ahead before text_eq text_ltb take_turn
second_waits = refl

-- The first run sends no more heartbeats.
second_takes_over : (round (at_time 131) (run "b" 101) two_runs).1 ≡ turn
unfolding round enqueue stale_row run_row count_ahead before text_eq text_ltb take_turn
second_takes_over = refl

-- The first run counts, another one joins, and then the first one starts.
abbrev joined_late : Rows
joined_late = enqueue (codes "b") 101 (enqueue (codes "a") 100 [])

joined_late-Reach : Reach (record { rows = mark_running (codes "a") 102 joined_late; cleared = [] })
unfolding enqueue count_ahead before text_eq text_ltb
joined_late-Reach =
    next
      (next
        (next (next empty (joins (record { rows = []; cleared = [] }) (codes "a") 100 tt)) (
          counts (record { rows = enqueue (codes "a") 100 []; cleared = [] }) (run "a" 100)
            (omega arith) refl))
        (joins (record { rows = enqueue (codes "a") 100 []; cleared = run "a" 100 ∷ [] })
          (codes "b") 101 ((refl, refl), tt)))
      (starts joined_late [] [] (run "a" 100) 102 (inr (refl, refl), (inl refl, tt)))

mutual_exclusion_example : count_if is_running (mark_running (codes "a") 102 joined_late) ≤ 1
mutual_exclusion_example = mutual_exclusion joined_late-Reach

-- The first run sends no heartbeat while it waits: the second one marks it stale and starts, and then
-- the first one, which still counts no run ahead of it, starts too.
abbrev second_started : Rows
second_started = (round (at_time 131) (run "b" 101) joined_late).0

stale_run_starts :
    (count_ahead (run "a" 100) second_started ≡ 0)
    × (count_if is_running (round (at_time 132) (run "a" 100) second_started).0 ≡ 2)
unfolding round enqueue stale_row run_row count_ahead before text_eq text_ltb take_turn
stale_run_starts = (refl, refl)

abbrev one_running : Rows
one_running =
    record {
      run_id = codes "b";
      status = running;
      created_at = 100;
      heartbeat_at = 100;
      finished_at = 0;
    }
    ∷ []

late_join_runs_beside_example :
    let after = round (at_time 100) (run "a" 100) (enqueue (codes "a") 100 one_running) in
    (after.1 ≡ turn) × (count_if is_running after.0 ≡ 2)
unfolding before text_eq text_ltb
late_join_runs_beside_example =
    late_join_runs_beside (run "a" 100) (at_time 100) one_running refl refl refl refl
      ((refl, refl, refl), tt)

abbrev left_over : Rows
left_over =
    record {
      run_id = codes "a";
      status = running;
      created_at = 90;
      heartbeat_at = 90;
      finished_at = 0;
    }
    ∷ []

abbrev quiet : Pause
quiet = record { others = λ rows. rows; canceled = false }

rejoin_never_turn_example :
    let (joined, rows, error) = join works (run "a" 0) 100 left_over in
    (joined ≡ run "a" 100)
    × (error ≡ none)
    × ((wait_rounds joined ((at_time 100, quiet) ∷ (at_time 200, quiet) ∷ []) rows 0).1 ≢ got_turn)
unfolding text_eq
rejoin_never_turn_example =
    rejoin_never_turn (run "a" 0) 100 [] []
      (record {
        run_id = codes "a";
        status = running;
        created_at = 90;
        heartbeat_at = 90;
        finished_at = 0;
      })
      ((at_time 100, quiet) ∷ (at_time 200, quiet) ∷ []) 0 refl tt refl (omega arith)
      ((λ rows h. h), ((λ rows h. h), tt))
