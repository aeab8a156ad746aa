-- ===== src/Mcp/Jobs/Limit.antt =====
-- What holds of the job manager as a whole (internal/mcp/sqlite_jobs.go).
use tgup.Prelude.{
  ℕ, ◌+◌, ◌≤◌, ◌≡◌, ◌⊎◌, refl, ap, inl, inr, Bool, true, false, Option, none, some, List, [], ◌∷◌,
  ◌++◌, count_if, count_if-append, All, All-split, All-append, arith, Bool-cases,
}
use tgup.Mcp.Jobs.{
  Status, queued, running, done, failed, cancelled, is_terminal, Job, Slot, Phase, admitted,
  inserted, waiting, holding, active, leaving, released, ended, Manager, JobManagerConfig,
  semaphore_size, new_slot, insert_row, launch, acquired, finish_job, give_up, mark_running,
  conclude, run_returns, release, clean_up, cancel, cancel_queued, wait_register, wait_check,
  emit_event, row_terminal, is_queued, safe_run,
}
use tgup.Mcp.Jobs.Steps.{
  Run, inserts, launches, acquires, gives_up, marks, returns, releases, leaves, Call, cancels,
  waits, checks, Step, admits, runs, calls, Reach, opened, next,
}
use tgup.Mcp.Jobs.Sound.{IsSound, RowFits, new_slot-IsSound, Run-IsSound, Call-IsSound}

-- The phases at which `run` holds the semaphore.
abbrev pub has_token : Phase → Bool
has_token holding = true
has_token active = true
has_token leaving = true
has_token _ = false

abbrev pub num : Bool → ℕ
num true = 1
num false = 0

abbrev pub uses : Slot → Bool
uses s = has_token s.phase

pub conclude-phase :
    (now : ℕ) (result : _) (error : _) (context_done : Bool) (s : Slot)
    → (conclude now result error context_done s).phase ≡ s.phase
unfolding conclude finish_job emit_event
conclude-phase now result error true s = refl
conclude-phase now result (some message) false s = refl
conclude-phase now result none false s = refl

Run-held :
    {size held held' : ℕ} {s s' : Slot}
    → Run size s held s' held'
    → num (uses s) ≤ held
    → held ≤ size
    → (held' + num (uses s) ≡ held + num (uses s')) × (held' ≤ size)
unfolding insert_row launch acquired give_up finish_job emit_event mark_running run_returns release
    clean_up
Run-held (inserts now path e) le top = (rw e (omega arith), top)
Run-held (launches e) le top = (rw e (omega arith), top)
Run-held (acquires e room) le top = (rw e (omega arith), omega arith)
Run-held (gives_up now e stop) le top = (rw e (omega arith), top)
Run-held (marks now e) le top = (rw e (omega arith), top)
Run-held {s = s} (returns now ran e) le top = (
  rw
      (
        conclude-phase now (safe_run ran).0 (safe_run ran).1 s.context_done
            (record s { phase = leaving }),
        e,
      )
      (omega arith),
  top,
)
Run-held {s = s} (releases e) le top =
    let on : num (uses s) ≡ 1 = ap (λ p. num (has_token p)) e in (omega arith, omega arith)
Run-held (leaves e) le top = (rw e (omega arith), top)

cancel_queued-phase :
    (now : ℕ) (row : Option Job) (s : Slot) → (cancel_queued now row s).phase ≡ s.phase
unfolding cancel_queued emit_event
cancel_queued-phase now none s = refl
cancel_queued-phase now (some job) s = elim (Bool-cases (is_queued job.status)) [
  | inl early ↦ rw early refl
  | inr late ↦ rw late refl
]

pub Call-phase : {s s' : Slot} → Call s s' → s'.phase ≡ s.phase
unfolding cancel wait_register wait_check
Call-phase {s = s} (cancels now) = elim (Bool-cases s.registered) [
  | inl here ↦ simp here refl
  | inr gone ↦ simp gone (cancel_queued-phase now s.row s)
]
Call-phase (waits channel) = refl
Call-phase {s = s} (checks channel) = elim (Bool-cases (row_terminal s.row)) [
  | inl final ↦ rw final refl
  | inr pending ↦ rw pending refl
]

count_if-mid :
    (before after : List Slot) (s : Slot)
    → count_if uses (before ++ s ∷ after)
      ≡ count_if uses before + num (uses s) + count_if uses after
count_if-mid before after s = elim (Bool-cases (uses s)) [
  | inl on ↦ rw (count_if-append uses before (s ∷ after), on) (omega arith)
  | inr off ↦ rw (count_if-append uses before (s ∷ after), off) (omega arith)
]

-- Every slot is sound, and the semaphore counts those that hold it.
pub record IsFine (size : ℕ) (m : Manager) : Type 0 where
  pub sound : All IsSound m.slots
  pub counted : m.held ≡ count_if uses m.slots
  pub within : m.held ≤ size

replaced :
    (before after : List Slot) (s s' : Slot)
    → (IsSound s → IsSound s')
    → All IsSound (before ++ s ∷ after)
    → All IsSound (before ++ s' ∷ after)
replaced before after s s' keeps h =
    let (l, r) = All-split IsSound before (s ∷ after) h in
    All-append IsSound before (s' ∷ after) l (keeps r.0, r.1)

Step-IsFine :
    {c : JobManagerConfig} {m m' : Manager}
    → Step c m m'
    → IsFine (semaphore_size c) m
    → IsFine (semaphore_size c) m'
unfolding new_slot
Step-IsFine (admits slots held room) h = record {
  sound = All-append IsSound slots (new_slot ∷ []) h.sound (new_slot-IsSound, tt);
  counted = omega (arith, h.counted, count_if-append uses slots (new_slot ∷ []));
  within = h.within;
}
Step-IsFine (runs before after s s' held held' r) h =
    let mid = count_if-mid before after s in
    let mid' = count_if-mid before after s' in
    let counted = h.counted in
    let (balance, within) = Run-held r (omega arith) h.within in
    record {
      sound = replaced before after s s' (Run-IsSound r) h.sound;
      counted = omega arith;
      within = within;
    }
Step-IsFine (calls before after s s' held r) h =
    let mid = count_if-mid before after s in
    let mid' = count_if-mid before after s' in
    let counted = h.counted in
    let same : num (uses s') ≡ num (uses s) = ap (λ p. num (has_token p)) (Call-phase r) in
    record {
      sound = replaced before after s s' (Call-IsSound r) h.sound;
      counted = omega arith;
      within = h.within;
    }

pub Reach-IsFine : {c : JobManagerConfig} {m : Manager} → Reach c m → IsFine (semaphore_size c) m
Reach-IsFine opened = record { sound = tt; counted = refl; within = omega arith }
Reach-IsFine (next r st) = Step-IsFine st (Reach-IsFine r)

abbrev pub is_running : Status → Bool
is_running running = true
is_running _ = false

abbrev pub row_running : Option Job → Bool
row_running none = false
row_running (some job) = is_running job.status

running_only : (st : Status) → is_running st ≡ true → st ≡ running
running_only running r = refl
running_only queued r = cc
running_only done r = cc
running_only failed r = cc
running_only cancelled r = cc

not_early : (st : Status) → is_running st ≡ true → (st ≡ queued) ⊎ (st ≡ cancelled) → ⊥
not_early st r (inl e) = let k = running_only st r in cc
not_early st r (inr e) = let k = running_only st r in cc

not_final : (st : Status) → is_running st ≡ true → is_terminal st ≡ true → ⊥
unfolding is_terminal
not_final running r e = cc
not_final queued r e = cc
not_final done r e = cc
not_final failed r e = cc
not_final cancelled r e = cc

row-token :
    (p : Phase) (row : Option Job) → RowFits p row → row_running row ≡ true → has_token p ≡ true
row-token holding row f r = refl
row-token active row f r = refl
row-token leaving row f r = refl
row-token p none f r = absurd (cc)
row-token admitted (some job) f r = absurd (cc)
row-token inserted (some job) f r = absurd (not_early job.status r f)
row-token waiting (some job) f r = absurd (not_early job.status r f)
row-token released (some job) f r = absurd (not_final job.status r f)
row-token ended (some job) f r = absurd (not_final job.status r f)

running-le :
    (slots : List Slot)
    → All IsSound slots
    → count_if (λ s. row_running s.row) slots ≤ count_if uses slots
running-le [] h = omega arith
running-le (s ∷ slots) (h, hs) = elim (Bool-cases (row_running s.row)) [
  | inl on ↦ rw (on, row-token s.phase s.row h.row_fits on) (omega (arith, running-le slots hs))
  | inr off ↦ rw off (ground (arith, running-le slots hs))
]

-- In every state that the manager comes to from an empty table, no more jobs have a row with the
-- status running than the semaphore has places, and no more places are taken than there are.
pub Reach-running :
    {c : JobManagerConfig} {m : Manager}
    → Reach c m
    → (count_if (λ s. row_running s.row) m.slots ≤ semaphore_size c)
      × (m.held ≤ semaphore_size c)
      × (m.held ≡ count_if uses m.slots)
Reach-running {m = m} r =
    let fine = Reach-IsFine r in
    let le = running-le m.slots fine.sound in
    let counted = fine.counted in let within = fine.within in (omega arith, within, counted)
