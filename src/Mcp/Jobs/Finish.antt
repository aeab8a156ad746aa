-- ===== src/Mcp/Jobs/Finish.antt =====
-- The jobs of the manager come to their end by their own code (internal/mcp/sqlite_jobs.go).
use mathlib.Core.Path.{subst}
use tgup.Prelude.{
  ℕ, zero, suc, not, ◌+◌, ◌≤◌, ◌<◌, ◌≡◌, ◌⊎◌, refl, ap, inl, inr, Bool, true, false, none, List, [],
  ◌∷◌, ◌++◌, All, All-split, All-count_if, All-imp, arith, Bool-cases,
}
use tgup.Mcp.Jobs.{
  Slot, Phase, admitted, inserted, waiting, holding, active, leaving, released, ended, Manager,
  JobManagerConfig, semaphore_size, or_default, insert_row, launch, acquired, give_up, finish_job,
  mark_running, run_returns, release, clean_up, emit_event, returned, safe_run,
}
use tgup.Mcp.Jobs.Steps.{
  Run, inserts, launches, acquires, gives_up, marks, returns, releases, leaves, runs, Reach, next,
}
use tgup.Mcp.Jobs.Sound.{is_over}
use tgup.Mcp.Jobs.Limit.{has_token, uses, IsFine, Reach-IsFine, conclude-phase}

-- The number of pieces of the code that a job still has to run.
abbrev to_go : Phase → ℕ
to_go admitted = 7
to_go inserted = 6
to_go waiting = 5
to_go holding = 4
to_go active = 3
to_go leaving = 2
to_go released = 1
to_go ended = 0

abbrev total : List Slot → ℕ
total [] = 0
total (s ∷ slots) = to_go s.phase + total slots

total-mid :
    (before after : List Slot) (s : Slot)
    → total (before ++ s ∷ after) ≡ total before + to_go s.phase + total after
total-mid [] after s = omega arith
total-mid (b ∷ before) after s = omega (arith, total-mid before after s)

-- A slot with a property, and what stands before and after it.
abbrev Found : (Slot → Bool) → List Slot → Type 0
Found p slots =
    (before : List Slot) × (after : List Slot) × (s : Slot) × (slots ≡ before ++ s ∷ after)
    × (p s ≡ true)

find : (p : Slot → Bool) (slots : List Slot) → Found p slots ⊎ All (λ s. p s ≡ false) slots
find p [] = inr tt
find p (s ∷ slots) = elim (Bool-cases (p s)) [
  | inl here ↦ inl ([], slots, s, refl, here)
  | inr not_here ↦ elim (find p slots) [
    | inl (before, after, t, e, there) ↦ inl (s ∷ before, after, t, ap (λ l. s ∷ l) e, there)
    | inr nowhere ↦ inr (not_here, nowhere)
  ]
]

-- A slot's code runs a piece.
abbrev Moves : ℕ → ℕ → Slot → Type 0
Moves size held s = (s' : Slot) × (held' : ℕ) × Run size s held s' held'

with_token :
    (size held : ℕ) (s : Slot) (p : Phase) → s.phase ≡ p → has_token p ≡ true → Moves size held s
with_token size held s holding e t = (_, _, marks 0 e)
with_token size held s active e t = (_, _, returns 0 (returned none none) e)
with_token size held s leaving e t = (_, _, releases e)
with_token size held s p e t = absurd (cc)

without_token :
    (size held : ℕ) (s : Slot) (p : Phase)
    → s.phase ≡ p
    → has_token p ≡ false
    → is_over p ≡ false
    → held < size
    → Moves size held s
without_token size held s admitted e t o room = (_, _, inserts 0 [] e)
without_token size held s inserted e t o room = (_, _, launches e)
without_token size held s waiting e t o room = (_, _, acquires e room)
without_token size held s released e t o room = (_, _, leaves e)
without_token size held s p e t o room = absurd (cc)

-- Every piece leaves a job less to run.
Run-less :
    {size held held' : ℕ} {s s' : Slot} → Run size s held s' held' → to_go s'.phase < to_go s.phase
unfolding insert_row launch acquired give_up finish_job mark_running run_returns release clean_up
    emit_event
Run-less (inserts now path e) = rw e (omega arith)
Run-less (launches e) = rw e (omega arith)
Run-less (acquires e room) = rw e (omega arith)
Run-less (gives_up now e stop) = rw e (omega arith)
Run-less (marks now e) = rw e (omega arith)
Run-less {s = s} (returns now ran e) =
    rw
      (
        conclude-phase now (safe_run ran).0 (safe_run ran).1 s.context_done
            (record s { phase = leaving }),
        e,
      )
      (omega arith)
Run-less (releases e) = rw e (omega arith)
Run-less (leaves e) = rw e (omega arith)

-- A piece of the code of some job, with no client and no new job.
pub data Works (c : JobManagerConfig) : Manager → Manager → Type 0 where
  works :
      (before after : List Slot) (s s' : Slot) (held held' : ℕ)
      → Run (semaphore_size c) s held s' held'
      → Works c
          (record { slots = before ++ s ∷ after; held = held })
          (record { slots = before ++ s' ∷ after; held = held' })

Works-Reach : {c : JobManagerConfig} {m m' : Manager} → Works c m m' → Reach c m → Reach c m'
Works-Reach (works before after s s' held held' run) r =
    next r (runs before after s s' held held' run)

Works-less : {c : JobManagerConfig} {m m' : Manager} → Works c m m' → total m'.slots < total m.slots
Works-less (works before after s s' held held' run) =
    omega (arith, total-mid before after s, total-mid before after s', Run-less run)

moved :
    (c : JobManagerConfig) (slots before after : List Slot) (s : Slot) (held : ℕ)
    → slots ≡ before ++ s ∷ after
    → Moves (semaphore_size c) held s
    → (m' : Manager) × Works c (record { slots = slots; held = held }) m'
moved c slots before after s held e (s', held', run) =
    rw e (
      record { slots = before ++ s' ∷ after; held = held' },
      works before after s s' held held' run,
    )

pub semaphore_pos : (c : JobManagerConfig) → 0 < semaphore_size c
unfolding semaphore_size or_default
semaphore_pos c = ground arith

progress :
    (c : JobManagerConfig) (m : Manager)
    → IsFine (semaphore_size c) m
    → All (λ s. is_over s.phase ≡ true) m.slots ⊎ ((m' : Manager) × Works c m m')
progress c m fine = elim (find uses m.slots) [
  | inl (before, after, s, e, on) ↦ inr (
      moved c m.slots before after s m.held e
        (with_token (semaphore_size c) m.held s s.phase refl on))
  | inr free ↦ elim (find (λ s. not (is_over s.phase)) m.slots) [
    | inl (before, after, s, e, open_still) ↦ inr (
        moved c m.slots before after s m.held e (
          without_token (semaphore_size c) m.held s s.phase refl
            (All-split _ before (s ∷ after) (subst (All (λ t. uses t ≡ false)) e free)).1.0
            (ground arith)
            (omega (arith, All-count_if uses m.slots free, semaphore_pos c, fine.counted))))
    | inr closed ↦ inl (All-imp _ _ (λ s h. ground arith) m.slots closed)
  ]
]

-- The jobs of a manager come to their end, in whatever order their code runs: it goes on, or the
-- goroutine of every job is over; and after each piece that may run next they still come to it.
pub data Ends (c : JobManagerConfig) : Manager → Type 0 where
  ends :
      {m : Manager}
      → All (λ s. is_over s.phase ≡ true) m.slots ⊎ ((m' : Manager) × Works c m m')
      → ((m' : Manager) → Works c m m' → Ends c m')
      → Ends c m

finish_all :
    (c : JobManagerConfig) (fuel : ℕ) (m : Manager) → Reach c m → total m.slots ≤ fuel → Ends c m
finish_all c zero m r le =
    ends (progress c m (Reach-IsFine r)) (λ m' w. absurd (omega (arith, Works-less w)))
finish_all c (suc fuel) m r le =
    ends (progress c m (Reach-IsFine r))
      (λ m' w. finish_all c fuel m' (Works-Reach w r) (omega (arith, Works-less w)))

-- From every state that the manager comes to from an empty table, whatever clients have done, the
-- jobs' own code comes to its end with no further call of a client, in whatever order its pieces run:
-- there is no endless run, and it stops in no state before every job's goroutine is over. (A runner
-- that is running returns or panics.)
pub Reach-Ends : {c : JobManagerConfig} {m : Manager} → Reach c m → Ends c m
Reach-Ends {c} {m} r = finish_all c (total m.slots) m r (omega arith)
