-- ===== src/Mcp/Jobs/Sound.antt =====
-- What holds of every slot of the job manager (internal/mcp/sqlite_jobs.go).
use mathlib.Core.Path.{subst, ap, sym, ◌∙◌}
use tgup.Prelude.{
  ℕ, ◌≡◌, ◌⊎◌, refl, inl, inr, Bool, true, false, Option, none, some, List, [], ◌∷◌, ◌++◌, arith,
  Bool-cases, ◌||◌, ◌==◌, ==_iff, All, All-imp, All-append,
}
use tgup.Prelude.Text.{Text}
use tgup.Mcp.Jobs.{
  Status, queued, running, done, failed, cancelled, is_terminal, is_queued, Job, Slot, Phase,
  admitted, inserted, waiting, holding, active, leaving, released, ended, Waiter, new_slot,
  insert_row, launch, acquired, finished, finish_job, give_up, started, mark_running, conclude,
  run_returns, release, clean_up, cancelled_row, cancel_queued, cancel, wait_register, row_terminal,
  wait_check, emit_event, block_on,
}
use tgup.Mcp.Jobs.Steps.{
  Run, inserts, launches, acquires, gives_up, marks, returns, releases, leaves, Call, cancels,
  waits, checks,
}

-- The statuses that a row may have at a phase.
abbrev pub Allows : Phase → Status → Type 0
Allows admitted st = ⊥
Allows inserted st = (st ≡ queued) ⊎ (st ≡ cancelled)
Allows waiting st = (st ≡ queued) ⊎ (st ≡ cancelled)
Allows holding st = (st ≡ queued) ⊎ (st ≡ cancelled)
Allows active st = st ≡ running
Allows leaving st = is_terminal st ≡ true
Allows released st = is_terminal st ≡ true
Allows ended st = is_terminal st ≡ true

abbrev pub RowFits : Phase → Option Job → Type 0
RowFits admitted row = row ≡ none
RowFits p none = ⊥
RowFits p (some job) = Allows p job.status

-- `cancels` has the job from its launch to its clean-up.
abbrev pub can_cancel : Phase → Bool
can_cancel admitted = false
can_cancel inserted = false
can_cancel ended = false
can_cancel _ = true

abbrev pub is_over : Phase → Bool
is_over ended = true
is_over _ = false

abbrev pub has : List ℕ → ℕ → Bool
has [] channel = false
has (c ∷ cs) channel = c == channel || has cs channel

has-append :
    (xs ys : List ℕ) (channel : ℕ) → has (xs ++ ys) channel ≡ has xs channel || has ys channel
has-append [] ys channel = refl
has-append (x ∷ xs) ys channel = ground (arith, has-append xs ys channel)

-- The channel of a call is in the map, or has been closed.
abbrev IsKnown : List ℕ → List ℕ → Waiter → Type 0
IsKnown waiters woken w = has waiters w.channel || has woken w.channel ≡ true

-- A call that waits for its channel has been woken.
abbrev pub IsWoken : List ℕ → Waiter → Type 0
IsWoken woken w = w.blocked ≡ true → has woken w.channel ≡ true

abbrev pub has_row : Phase → Bool
has_row admitted = false
has_row _ = true

pub record IsSound (s : Slot) : Type 0 where
  pub row_fits : RowFits s.phase s.row
  pub cancellable : s.registered ≡ can_cancel s.phase
  pub known : All (IsKnown s.waiters s.woken) s.callers
  pub no_one_left : is_over s.phase ≡ true → All (IsWoken s.woken) s.callers

pub new_slot-IsSound : IsSound new_slot
unfolding new_slot
new_slot-IsSound = record { row_fits = refl; cancellable = refl; known = tt; no_one_left = λ e. tt }

-- The row at a phase after the insertion.
row_at :
    (s : Slot) (p : Phase)
    → IsSound s
    → s.phase ≡ p
    → has_row p ≡ true
    → (job : Job) × (s.row ≡ some job) × Allows p job.status
row_at s p h e has = split p s.row (subst (λ q. RowFits q s.row) e h.row_fits) has
  where
    split :
        (q : Phase) (row : Option Job)
        → RowFits q row
        → has_row q ≡ true
        → (job : Job) × (row ≡ some job) × Allows q job.status
    split admitted row f has = absurd (cc)
    split inserted (some job) f has = (job, refl, f)
    split waiting (some job) f has = (job, refl, f)
    split holding (some job) f has = (job, refl, f)
    split active (some job) f has = (job, refl, f)
    split leaving (some job) f has = (job, refl, f)
    split released (some job) f has = (job, refl, f)
    split ended (some job) f has = (job, refl, f)
    split inserted none f has = absurd f
    split waiting none f has = absurd f
    split holding none f has = absurd f
    split active none f has = absurd f
    split leaving none f has = absurd f
    split released none f has = absurd f
    split ended none f has = absurd f

-- A phase before the end, at which the maps agree with it.
goes_on-IsSound :
    (s : Slot) (p : Phase)
    → RowFits s.phase s.row
    → s.registered ≡ can_cancel s.phase
    → s.phase ≡ p
    → is_over p ≡ false
    → All (IsKnown s.waiters s.woken) s.callers
    → IsSound s
goes_on-IsSound s p f c e goes_on k = record {
  row_fits = f;
  cancellable = c;
  known = k;
  no_one_left = λ over. absurd (cc);
}

registered_at : (s : Slot) (p : Phase) → IsSound s → s.phase ≡ p → s.registered ≡ can_cancel p
registered_at s p h e = h.cancellable ∙ ap can_cancel e

conclude-IsSound :
    (now : ℕ) (result : _) (error : Option Text) (context_done : Bool) (s : Slot)
    → s.phase ≡ leaving
    → s.registered ≡ true
    → (job : Job) × (s.row ≡ some job)
    → All (IsKnown s.waiters s.woken) s.callers
    → IsSound (conclude now result error context_done s)
unfolding conclude finish_job finished emit_event is_terminal
conclude-IsSound now result error true s e r (job, row) k =
    goes_on-IsSound _ leaving (rw (e, row) refl) (rw e r) e refl k
conclude-IsSound now result (some message) false s e r (job, row) k =
    goes_on-IsSound _ leaving (rw (e, row) refl) (rw e r) e refl k
conclude-IsSound now result none false s e r (job, row) k =
    goes_on-IsSound _ leaving (rw (e, row) refl) (rw e r) e refl k

-- The closing of the job's channels.
closed :
    (waiters woken : List ℕ) (w : Waiter)
    → IsKnown waiters woken w
    → has (waiters ++ woken) w.channel ≡ true
closed waiters woken w k = rw (has-append waiters woken w.channel) k

pub Run-IsSound :
    {size held held' : ℕ} {s s' : Slot} → Run size s held s' held' → IsSound s → IsSound s'
unfolding insert_row launch acquired give_up finish_job finished emit_event mark_running started
    run_returns release clean_up is_terminal
Run-IsSound {s = s} (inserts now path e) h =
    goes_on-IsSound _ inserted (inl refl) (registered_at s admitted h e) refl refl h.known
Run-IsSound {s = s} (launches e) h =
    let (job, row, fits) = row_at s inserted h e refl in
    goes_on-IsSound _ waiting (rw row fits) refl refl refl h.known
Run-IsSound {s = s} (acquires e room) h =
    let (job, row, fits) = row_at s waiting h e refl in
    goes_on-IsSound _ holding (rw row fits) (registered_at s waiting h e) refl refl h.known
Run-IsSound {s = s} (gives_up now e stop) h =
    let (job, row, fits) = row_at s waiting h e refl in
    goes_on-IsSound _ released (rw row refl) (registered_at s waiting h e) refl refl h.known
Run-IsSound {s = s} (marks now e) h =
    let (job, row, fits) = row_at s holding h e refl in
    goes_on-IsSound _ active (rw row refl) (registered_at s holding h e) refl refl h.known
Run-IsSound {s = s} (returns now ran e) h =
    let (job, row, fits) = row_at s active h e refl in
    conclude-IsSound now _ _ s.context_done (record s { phase = leaving }) refl
      (registered_at s active h e) (job, row) h.known
Run-IsSound {s = s} (releases e) h =
    let (job, row, fits) = row_at s leaving h e refl in
    goes_on-IsSound _ released (rw row fits) (registered_at s leaving h e) refl refl h.known
Run-IsSound {s = s} (leaves e) h =
    let (job, row, fits) = row_at s released h e refl in
    record {
      row_fits = rw row fits;
      cancellable = refl;
      known = All-imp _ _ (closed s.waiters s.woken) s.callers h.known;
      no_one_left = λ over. All-imp _ _ (λ w k b. closed s.waiters s.woken w k) s.callers h.known;
    }

queued_not_terminal : (st : Status) → is_queued st ≡ true → is_terminal st ≡ true → ⊥
unfolding is_queued is_terminal
queued_not_terminal queued a b = cc
queued_not_terminal running a b = cc
queued_not_terminal done a b = cc
queued_not_terminal failed a b = cc
queued_not_terminal cancelled a b = cc

cancelled-fits :
    (now : ℕ) (p : Phase) (job : Job)
    → RowFits p (some job)
    → is_queued job.status ≡ true
    → can_cancel p ≡ false
    → RowFits p (some (cancelled_row now job))
unfolding cancelled_row
cancelled-fits now admitted job f q r = absurd (cc)
cancelled-fits now inserted job f q r = inr refl
cancelled-fits now ended job f q r = absurd (queued_not_terminal job.status q f)
cancelled-fits now waiting job f q r = absurd (cc)
cancelled-fits now holding job f q r = absurd (cc)
cancelled-fits now active job f q r = absurd (cc)
cancelled-fits now leaving job f q r = absurd (cc)
cancelled-fits now released job f q r = absurd (cc)

cancel_queued-IsSound :
    (now : ℕ) (row : Option Job) (s : Slot)
    → s.row ≡ row
    → s.registered ≡ false
    → IsSound s
    → IsSound (cancel_queued now row s)
unfolding cancel_queued emit_event
cancel_queued-IsSound now none s e r h = h
cancel_queued-IsSound now (some job) s e r h = elim (Bool-cases (is_queued job.status)) [
  | inl early ↦ rw early (record {
    row_fits =
        cancelled-fits now s.phase job (subst (RowFits s.phase) e h.row_fits) early
          (sym h.cancellable ∙ r);
    cancellable = h.cancellable;
    known = h.known;
    no_one_left = h.no_one_left;
  })
  | inr late ↦ rw late h
]

registered-IsKnown :
    (waiters woken : List ℕ) (channel : ℕ) (w : Waiter)
    → IsKnown waiters woken w
    → IsKnown (waiters ++ channel ∷ []) woken w
registered-IsKnown waiters woken channel w k =
    ground (arith, has-append waiters (channel ∷ []) w.channel)

new-IsKnown :
    (waiters woken : List ℕ) (channel : ℕ)
    → has (waiters ++ channel ∷ []) channel || has woken channel ≡ true
new-IsKnown waiters woken channel =
    ground (arith, has-append waiters (channel ∷ []) channel, ==_iff channel channel)

block_on-IsKnown :
    (waiters woken : List ℕ) (channel : ℕ) (ws : List Waiter)
    → All (IsKnown waiters woken) ws
    → All (IsKnown waiters woken) (block_on channel ws)
unfolding block_on
block_on-IsKnown waiters woken channel [] k = tt
block_on-IsKnown waiters woken channel (w ∷ ws) k = elim (Bool-cases (w.channel == channel)) [
  | inl same ↦ rw same (k.0, block_on-IsKnown waiters woken channel ws k.1)
  | inr other ↦ rw other (k.0, block_on-IsKnown waiters woken channel ws k.1)
]

pub over_is_ended : (p : Phase) → is_over p ≡ true → p ≡ ended
over_is_ended ended e = refl
over_is_ended admitted e = cc
over_is_ended inserted e = cc
over_is_ended waiting e = cc
over_is_ended holding e = cc
over_is_ended active e = cc
over_is_ended leaving e = cc
over_is_ended released e = cc

-- The row of a job that is over has a final status.
pub over-terminal : (s : Slot) → IsSound s → is_over s.phase ≡ true → row_terminal s.row ≡ true
unfolding row_terminal
over-terminal s h over =
    let (job, row, fits) = row_at s ended h (over_is_ended s.phase over) refl in rw row fits

pub Call-IsSound : {s s' : Slot} → Call s s' → IsSound s → IsSound s'
unfolding cancel wait_register wait_check
Call-IsSound {s = s} (cancels now) h = elim (Bool-cases s.registered) [
  | inl here ↦ rw here (record {
    row_fits = h.row_fits;
    cancellable = sym here ∙ h.cancellable;
    known = h.known;
    no_one_left = h.no_one_left;
  })
  | inr gone ↦ simp gone (cancel_queued-IsSound now s.row s refl gone h)
]
Call-IsSound {s = s} (waits channel) h = record {
  row_fits = h.row_fits;
  cancellable = h.cancellable;
  known =
      All-append _ s.callers (record { channel = channel; blocked = false } ∷ [])
        (All-imp _ _ (registered-IsKnown s.waiters s.woken channel) s.callers h.known)
        (new-IsKnown s.waiters s.woken channel, tt);
  no_one_left = λ over.
      All-append _ s.callers (record { channel = channel; blocked = false } ∷ [])
        (h.no_one_left over) ((λ b. absurd (cc)), tt);
}
Call-IsSound {s = s} (checks channel) h = elim (Bool-cases (row_terminal s.row)) [
  | inl final ↦ rw final h
  | inr pending ↦ rw pending (record {
    row_fits = h.row_fits;
    cancellable = h.cancellable;
    known = block_on-IsKnown s.waiters s.woken channel s.callers h.known;
    no_one_left = λ over. absurd (cut over pending);
  })
]
  where
    cut : is_over s.phase ≡ true → row_terminal s.row ≡ false → ⊥
    cut over pending = let k = over-terminal s h over in cc
