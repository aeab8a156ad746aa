-- ===== src/Mcp/Jobs/Tests.antt =====
-- Tests of the job manager: one job from its start to its end, and one that is cancelled early.
use tgup.Prelude.{ℕ, ◌≤◌, ◌≡◌, refl, some, none, [], ◌∷◌, map, count_if, arith}
use tgup.Prelude.Int.{pos}
use tgup.Prelude.Text.{codes}
use tgup.Mcp.Jobs.{
  Status, Slot, Manager, JobManagerConfig, semaphore_size, queue_size, count_non_terminal, new_slot,
  insert_row, launch, acquired, mark_running, run_returns, panicked, release, clean_up, cancel,
  wait_register, wait_check,
}
use tgup.Mcp.Jobs.Steps.{inserts, launches, acquires, marks, admits, runs, Reach, opened, next}
use tgup.Mcp.Jobs.Limit.{uses, row_running, Reach-running}
use tgup.Mcp.Jobs.Finish.{Ends, Reach-Ends}

-- One place in the semaphore, and the default length of the queue.
abbrev config : JobManagerConfig
config = record { max_concurrent = pos 1; max_queue = pos 0 }

abbrev slot_inserted : Slot
slot_inserted = insert_row 10 (codes "a.toml") new_slot

abbrev slot_marked : Slot
slot_marked = mark_running 20 (acquired (launch slot_inserted))

abbrev slot_waited : Slot
slot_waited = wait_check 5 (wait_register 5 slot_marked)

abbrev slot_over : Slot
slot_over = clean_up (release (run_returns 30 (panicked (codes "nil map")) slot_waited))

abbrev one_slot : ℕ → Slot → Manager
one_slot held s = record { slots = s ∷ []; held = held }

slot_over_status :
    slot_over.row
    ≡ some (record {
      status = Status.failed;
      config_path = codes "a.toml";
      created_at = 10;
      started_at = some 20;
      finished_at = some 30;
      result = none;
      error = codes "job runner panic: nil map";
    })
unfolding clean_up release run_returns wait_check wait_register mark_running acquired launch
    insert_row new_slot
slot_over_status = refl

-- The call of `Wait` blocked, and its channel was closed.
slot_over_woken : slot_over.woken ≡ 5 ∷ []
unfolding clean_up release run_returns wait_check wait_register mark_running acquired launch
    insert_row new_slot
slot_over_woken = refl

-- A cancellation between the insertion of the row and the launch answers that the job is
-- cancelled; the job then runs all the same.
early_cancel :
    map (λ e. e.0) (mark_running 20 (acquired (launch (cancel 15 slot_inserted)))).events
    ≡ codes "job.running" ∷ codes "job.cancelled" ∷ codes "job.queued" ∷ []
unfolding mark_running acquired launch cancel insert_row new_slot
early_cancel = refl

marked-Reach : Reach config (one_slot 1 slot_marked)
unfolding count_non_terminal queue_size new_slot insert_row launch semaphore_size acquired
marked-Reach =
    next
      (next
        (next
          (next (next opened (admits [] 0 (omega arith)))
            (runs [] [] new_slot slot_inserted 0 0 (inserts 10 (codes "a.toml") refl)))
          (runs [] [] slot_inserted (launch slot_inserted) 0 0 (launches refl)))
        (runs [] [] (launch slot_inserted) (acquired (launch slot_inserted)) 0 1
          (acquires refl (omega arith))))
      (runs [] [] (acquired (launch slot_inserted)) slot_marked 1 1 (marks 20 refl))

Reach-running_example :
    (count_if (λ s. row_running s.row) (slot_marked ∷ []) ≤ semaphore_size config)
    × (1 ≤ semaphore_size config)
    × (1 ≡ count_if uses (slot_marked ∷ []))
Reach-running_example = Reach-running marked-Reach

Reach-Ends_example : Ends config (one_slot 1 slot_marked)
Reach-Ends_example = Reach-Ends marked-Reach
