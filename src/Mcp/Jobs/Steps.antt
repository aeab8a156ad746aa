-- ===== src/Mcp/Jobs/Steps.antt =====
-- The histories of the job manager (internal/mcp/sqlite_jobs.go): which atomic piece of the code
-- may run next. The place of a slot in the list stands for the job's id.
use tgup.Prelude.{ℕ, suc, ◌-◌, ◌<◌, ◌≡◌, true, List, [], ◌∷◌, ◌++◌}
use tgup.Prelude.Text.{Text}
use tgup.Mcp.Jobs.{
  Slot, admitted, inserted, waiting, holding, active, leaving, released, Ran, Manager,
  JobManagerConfig, semaphore_size, queue_size, count_non_terminal, new_slot, insert_row, launch,
  acquired, give_up, mark_running, run_returns, release, clean_up, cancel, wait_register,
  wait_check,
}

-- A piece of the code of `Start` and `run`, for a semaphore of a size, of which a number is held.
pub data Run (size : ℕ) (s : Slot) (held : ℕ) : Slot → ℕ → Type 0 where
  inserts :
      (now : ℕ) (path : Text) → s.phase ≡ admitted → Run size s held (insert_row now path s) held
  launches : s.phase ≡ inserted → Run size s held (launch s) held
  acquires : s.phase ≡ waiting → held < size → Run size s held (acquired s) (suc held)
  gives_up :
      (now : ℕ) → s.phase ≡ waiting → s.context_done ≡ true → Run size s held (give_up now s) held
  marks : (now : ℕ) → s.phase ≡ holding → Run size s held (mark_running now s) held
  returns : (now : ℕ) (ran : Ran) → s.phase ≡ active → Run size s held (run_returns now ran s) held
  releases : s.phase ≡ leaving → Run size s held (release s) (held - 1)
  leaves : s.phase ≡ released → Run size s held (clean_up s) held

-- A call of a client about a job.
pub data Call (s : Slot) : Slot → Type 0 where
  cancels : (now : ℕ) → Call s (cancel now s)
  waits : (channel : ℕ) → Call s (wait_register channel s)
  checks : (channel : ℕ) → Call s (wait_check channel s)

pub data Step (c : JobManagerConfig) : Manager → Manager → Type 0 where
  admits :
      (slots : List Slot) (held : ℕ)
      → count_non_terminal slots < queue_size c
      → Step c
          (record { slots = slots; held = held })
          (record { slots = slots ++ new_slot ∷ []; held = held })
  runs :
      (before after : List Slot) (s s' : Slot) (held held' : ℕ)
      → Run (semaphore_size c) s held s' held'
      → Step c
          (record { slots = before ++ s ∷ after; held = held })
          (record { slots = before ++ s' ∷ after; held = held' })
  calls :
      (before after : List Slot) (s s' : Slot) (held : ℕ)
      → Call s s'
      → Step c
          (record { slots = before ++ s ∷ after; held = held })
          (record { slots = before ++ s' ∷ after; held = held })

-- What a manager comes to from its opening, on an empty table.
pub data Reach (c : JobManagerConfig) : Manager → Type 0 where
  opened : Reach c (record { slots = []; held = 0 })
  next : {m m' : Manager} → Reach c m → Step c m m' → Reach c m'
