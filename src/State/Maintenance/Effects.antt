-- ===== src/State/Maintenance/Effects.antt =====
-- What clean-up of the state file does (`ApplyMaintenance` of internal/state/sqlite_store.go).
use tgup.Prelude.{
  ℕ, ◌+◌, ◌<◌, ◌≡◌, refl, Bool, true, false, not, ◌&&◌, List, [], ◌∷◌, keep, count_if, length,
  arith, Bool-cases, inl, inr, ltb, ◌⊎◌,
}
use tgup.Errors.{Error, ok, err}
use tgup.Queue.Model.{QueueRow, is_live}
use tgup.State.Model.{CleanupReport}
use tgup.State.Model.{UploadRow, MaintenanceConfig}
use tgup.State.Store.{works, is_sent}
use tgup.State.Maintenance.{
  Tables, Answers, upload_matches, queue_matches, cutoff_unix, is_positive, clean, counts,
  apply_maintenance,
}

-- A clean-up that returns an error has changed no table, at whatever statement the driver failed.
pub apply_maintenance_error_unchanged :
    (a : Answers) (cfg : MaintenanceConfig) (force : Bool) (now : ℕ) (t : Tables) (e : Error)
    → (apply_maintenance a cfg force now t).1 ≡ err e
    → (apply_maintenance a cfg force now t).0 ≡ t
unfolding apply_maintenance
apply_maintenance_error_unchanged a cfg force now t e h = ground arith

-- Every statement succeeds.
pub record AllWork (a : Answers) : Type 0 where
  pub counted_uploads : a.count_uploads ≡ works
  pub counted_queue : a.count_queue ≡ works
  pub begun : a.begin ≡ works
  pub deleted_uploads : a.delete_uploads ≡ works
  pub deleted_queue : a.delete_queue ≡ works
  pub committed : a.commit ≡ works

-- A preview changes no table, and where the driver works it reports the numbers of rows that a
-- forced clean-up at the same time (with a positive maximal age) deletes and reports.
preview_predicts :
    (a b : Answers) (cfg : MaintenanceConfig) (now : ℕ) (t : Tables)
    → AllWork a
    → AllWork b
    → cfg.enabled ≡ true
    → is_positive cfg.max_age ≡ true
    → let cutoff = cutoff_unix now cfg.max_age in
      (apply_maintenance a cfg false now t ≡ (t, ok (counts cfg cutoff t true false)))
      × (apply_maintenance b cfg true now t
          ≡ (clean cfg cutoff t, ok (counts cfg cutoff t false b.vacuum)))
unfolding apply_maintenance
preview_predicts a b cfg now t v w on age = (ground arith, ground arith)

count_if-keep {ℓ} :
    {A : Type ℓ} (p : A → Bool) (xs : List A)
    → length (keep (λ x. not (p x)) xs) + count_if p xs ≡ length xs
count_if-keep p [] = refl
count_if-keep p (x ∷ xs) = elim (Bool-cases (p x)) [
  | inl yes' ↦ rw yes' (omega (arith, count_if-keep p xs))
  | inr no' ↦ rw no' (omega (arith, count_if-keep p xs))
]

-- The numbers that a clean-up reports are the numbers of rows by which the tables shrink.
clean-counts :
    (cfg : MaintenanceConfig) (cutoff : ℕ) (t : Tables) (preview vacuumed : Bool)
    → let r = counts cfg cutoff t preview vacuumed in
      (length (clean cfg cutoff t).uploads + r.deleted_uploads ≡ length t.uploads)
      × (length (clean cfg cutoff t).queue + r.deleted_queue_rows ≡ length t.queue)
unfolding clean counts
clean-counts cfg cutoff t preview vacuumed = (
  count_if-keep (upload_matches cfg cutoff) t.uploads,
  count_if-keep (queue_matches cutoff) t.queue,
)

-- With maintenance enabled, a positive maximal age and a working driver, a preview changes nothing,
-- and its report gives the numbers of rows by which a forced clean-up at the same time shortens the
-- two tables; the report of the forced clean-up gives the same numbers.
pub preview_counts_deletions :
    (a b : Answers) (cfg : MaintenanceConfig) (now : ℕ) (t : Tables)
    → AllWork a
    → AllWork b
    → cfg.enabled ≡ true
    → is_positive cfg.max_age ≡ true
    → (r : CleanupReport) × (t' : Tables) × (r' : CleanupReport) × (apply_maintenance a cfg false
          now t
        ≡ (t, ok r))
      × (apply_maintenance b cfg true now t ≡ (t', ok r'))
      × (length t'.uploads + r.deleted_uploads ≡ length t.uploads)
      × (length t'.queue + r.deleted_queue_rows ≡ length t.queue)
      × (r'.deleted_uploads ≡ r.deleted_uploads)
      × (r'.deleted_queue_rows ≡ r.deleted_queue_rows)
unfolding counts
preview_counts_deletions a b cfg now t wa wb on pos_age =
    let cutoff = cutoff_unix now cfg.max_age in
    let (preview, forced) = preview_predicts a b cfg now t wa wb on pos_age in
    let (uploads, queue) = clean-counts cfg cutoff t true false in
    (
      counts cfg cutoff t true false,
      clean cfg cutoff t,
      counts cfg cutoff t false b.vacuum,
      preview,
      forced,
      uploads,
      queue,
      refl,
      refl,
    )

-- The tables afterwards are those before or the cleaned ones.
apply_maintenance_either :
    (a : Answers) (cfg : MaintenanceConfig) (force : Bool) (now : ℕ) (t : Tables)
    → ((apply_maintenance a cfg force now t).0 ≡ t)
      ⊎ ((apply_maintenance a cfg force now t).0 ≡ clean cfg (cutoff_unix now cfg.max_age) t)
unfolding apply_maintenance
apply_maintenance_either a cfg force now t = ground arith

keep-keep {ℓ} :
    {A : Type ℓ} (p q : A → Bool) (xs : List A)
    → ((x : A) → p x ≡ true → q x ≡ true)
    → keep p (keep q xs) ≡ keep p xs
keep-keep p q [] h = refl
keep-keep p q (x ∷ xs) h = elim (Bool-cases (p x)) [
  | inl kept ↦ rw (h x kept, kept, keep-keep p q xs h)
  | inr gone ↦ elim (Bool-cases (q x)) [
    | inl there ↦ rw (there, gone, keep-keep p q xs h)
    | inr removed ↦ rw (removed, gone, keep-keep p q xs h)
  ]
]

live_unmatched :
    (cutoff : ℕ) (r : QueueRow) → is_live r.status ≡ true → not (queue_matches cutoff r) ≡ true
unfolding queue_matches
live_unmatched cutoff r h = ground arith

-- No clean-up touches a run that waits or runs, whatever the settings, the clock and the answers.
pub apply_maintenance_keeps_live :
    (a : Answers) (cfg : MaintenanceConfig) (force : Bool) (now : ℕ) (t : Tables)
    → keep (λ r. is_live r.status) (apply_maintenance a cfg force now t).0.queue
      ≡ keep (λ r. is_live r.status) t.queue
unfolding clean
apply_maintenance_keeps_live a cfg force now t = elim (apply_maintenance_either a cfg force now t) [
  | inl same ↦ rw same
  | inr cleaned ↦ rw cleaned (keep-keep _ _ t.queue (live_unmatched (cutoff_unix now cfg.max_age)))
]

sent_unmatched :
    (cfg : MaintenanceConfig) (cutoff : ℕ)
    → cfg.keep_failed ≡ true
    → (r : UploadRow) → is_sent r.status ≡ true
    → not (upload_matches cfg cutoff r) ≡ true
unfolding upload_matches is_sent
sent_unmatched cfg cutoff keeps r h = ground arith

old_failed_matched :
    (cfg : MaintenanceConfig) (cutoff : ℕ)
    → cfg.keep_failed ≡ true
    → 0 < cutoff
    → (r : UploadRow) → not (is_sent r.status) && ltb r.updated_at cutoff ≡ true
    → not (upload_matches cfg cutoff r) ≡ false
unfolding upload_matches is_sent
old_failed_matched cfg cutoff keeps old r h = ground arith

count_if-keep_none {ℓ} :
    {A : Type ℓ} (p q : A → Bool) (xs : List A)
    → ((x : A) → p x ≡ true → q x ≡ false)
    → count_if p (keep q xs) ≡ 0
count_if-keep_none p q [] h = refl
count_if-keep_none p q (x ∷ xs) h = elim (Bool-cases (q x)) [
  | inr removed ↦ rw removed (count_if-keep_none p q xs h)
  | inl there ↦ elim (Bool-cases (p x)) [
    | inl both ↦ absurd (cc (h x both))
    | inr fine ↦ rw (there, fine) (count_if-keep_none p q xs h)
  ]
]

-- A failed upload that was last marked before the cutoff.
abbrev pub old_failed : ℕ → UploadRow → Bool
old_failed cutoff r = not (is_sent r.status) && ltb r.updated_at cutoff

-- With `KeepFailed` set, a forced clean-up (enabled, with a working driver, and a maximal age
-- that is positive and less than the clock's time) keeps every sent upload, however old, and
-- deletes every failed one that was last marked before the cutoff.
pub keep_failed_deletes_failed :
    (a : Answers) (cfg : MaintenanceConfig) (now : ℕ) (t : Tables)
    → AllWork a
    → cfg.enabled ≡ true
    → is_positive cfg.max_age ≡ true
    → cfg.keep_failed ≡ true
    → 0 < cutoff_unix now cfg.max_age
    → let after = (apply_maintenance a cfg true now t).0.uploads in
      (keep (λ r. is_sent r.status) after ≡ keep (λ r. is_sent r.status) t.uploads)
      × (count_if (old_failed (cutoff_unix now cfg.max_age)) after ≡ 0)
keep_failed_deletes_failed a cfg now t v on age keeps old =
    rw ((preview_predicts a a cfg now t v v on age).1) (
      unfold clean in
      (
        keep-keep _ _ t.uploads (sent_unmatched cfg (cutoff_unix now cfg.max_age) keeps),
        count_if-keep_none _ _ t.uploads
            (old_failed_matched cfg (cutoff_unix now cfg.max_age) keeps old),
      ))
