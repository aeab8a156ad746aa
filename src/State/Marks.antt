-- ===== src/State/Marks.antt =====
-- What marks and queries of the table `uploads` promise (internal/state/sqlite_store.go).
use tgup.Prelude.{
  ℕ, ◌≡◌, refl, ◌↔◌, ◌≢◌, true, false, not, ◌||◌, List, [], ◌∷◌, Option, none, some, keep, All,
  arith, if◌then◌else◌, Bool-cases, inl, inr, ap, ◌∙◌,
}
use mathlib.Core.Path.{fun_ext}
use tgup.Prelude.Text.{text_eq_iff}
use tgup.Errors.{Error, ok}
use tgup.State.Model.{sent, ResumeKey, UploadRow, MarkSentInput, MarkFailedInput, same_key}
use tgup.State.Store.{
  Table, Db, works, fails, select, upsert, sent_row, failed_row, mark_sent, mark_failed,
  row_is_sent, is_done, list_pending, get_upload_row,
}

pub same_key_iff : (a b : ResumeKey) → (same_key a b ≡ true) ↔ (a ≡ b)
unfolding same_key
same_key_iff a b =
    (λ h. ground (arith, text_eq_iff a.path b.path), λ h. ground (arith, text_eq_iff a.path b.path))

-- What an upsert leaves under its key: the new row, with the creation time of the old one.
abbrev pub merged : UploadRow → Option UploadRow → UploadRow
merged new none = new
merged new (some old) = record new { created_at = old.created_at }

pub select-upsert :
    (new : UploadRow) (key : ResumeKey) (t : Table)
    → select key (upsert new t)
      ≡ (if same_key new.key key then some (merged new (select new.key t)) else select key t)
unfolding select upsert
select-upsert new key [] = refl
select-upsert new key (row ∷ rows) = ground (
  arith,
  same_key_iff row.key new.key,
  same_key_iff new.key key,
  same_key_iff row.key key,
  select-upsert new key rows,
)

-- After an item is marked sent it is done, and after it is marked failed it is not; every other
-- item is done exactly if it was before. (The driver works.)
pub is_done-mark :
    (now : ℕ) (i : MarkSentInput) (j : MarkFailedInput) (t : Table) (key : ResumeKey)
    → (is_done works key (mark_sent works now i t).0
        ≡ (if same_key i.key key then ok true else is_done works key t))
      × (is_done works key (mark_failed works now j t).0
          ≡ (if same_key j.key key then ok false else is_done works key t))
unfolding is_done mark_sent mark_failed
is_done-mark now i j t key = (
  ground (arith, select-upsert (sent_row now i) key t),
  ground (arith, select-upsert (failed_row now j) key t),
)

-- The time of an item's first mark, where a row of it is there.
abbrev pub first_time : ℕ → Option UploadRow → ℕ
first_time now none = now
first_time now (some old) = old.created_at

merged-sent_row :
    (now : ℕ) (i : MarkSentInput) (old : Option UploadRow)
    → merged (sent_row now i) old ≡ record {
      key = i.key;
      status = sent;
      target = i.target;
      error_reason = [];
      message_ids = i.message_ids;
      album_group_id = i.album_group_id;
      created_at = first_time now old;
      updated_at = now;
    }
unfolding sent_row
merged-sent_row now i none = refl
merged-sent_row now i (some old) = refl

-- The row of an item that was marked sent holds the key, the target, the message ids and the album
-- group that were given, the status `sent`, no error reason, and the time of the call; its creation
-- time is that of the row that was there, or the time of the call. (The driver works.)
pub get_upload_row-mark_sent :
    (now : ℕ) (i : MarkSentInput) (t : Table)
    → get_upload_row works i.key (mark_sent works now i t).0
      ≡ ok (
          some (record {
            key = i.key;
            status = sent;
            target = i.target;
            error_reason = [];
            message_ids = i.message_ids;
            album_group_id = i.album_group_id;
            created_at = first_time now (select i.key t);
            updated_at = now;
          }))
unfolding get_upload_row mark_sent
get_upload_row-mark_sent now i t = ground (
  arith,
  select-upsert (sent_row now i) i.key t,
  same_key_iff i.key i.key,
  merged-sent_row now i (select i.key t),
)

-- A failing driver changes nothing, and the caller gets an error.
pub mark_fails :
    (e : Error) (now : ℕ) (i : MarkSentInput) (j : MarkFailedInput) (t : Table)
    → ((mark_sent (fails e) now i t).0 ≡ t)
      × ((mark_sent (fails e) now i t).1 ≢ none)
      × ((mark_failed (fails e) now j t).0 ≡ t)
      × ((mark_failed (fails e) now j t).1 ≢ none)
unfolding mark_sent mark_failed
mark_fails e now i j t = (refl, (λ h. cc), refl, (λ h. cc))

-- No two rows share a key.
abbrev pub AreKeyed : Table → Type 0
AreKeyed [] = Unit
AreKeyed (row ∷ rows) = All (λ r. same_key row.key r.key ≡ false) rows × AreKeyed rows

upsert-fresh :
    (key : ResumeKey) (new : UploadRow) (t : Table)
    → same_key key new.key ≡ false
    → All (λ r. same_key key r.key ≡ false) t
    → All (λ r. same_key key r.key ≡ false) (upsert new t)
unfolding upsert
upsert-fresh key new [] h f = (h, tt)
upsert-fresh key new (row ∷ rows) h f = elim (Bool-cases (same_key row.key new.key)) [
  | inl same ↦ rw same (f.0, f.1)
  | inr other ↦ rw other (f.0, upsert-fresh key new rows h f.1)
]

pub upsert-AreKeyed : (new : UploadRow) (t : Table) → AreKeyed t → AreKeyed (upsert new t)
unfolding upsert
upsert-AreKeyed new [] k = (tt, tt)
upsert-AreKeyed new (row ∷ rows) k = elim (Bool-cases (same_key row.key new.key)) [
  | inl same ↦ rw same k
  | inr other ↦ rw other (upsert-fresh row.key new rows other k.0, upsert-AreKeyed new rows k.1)
]

-- Marks keep the primary key: no two rows of the table share one.
pub mark-AreKeyed :
    (db : Db) (now : ℕ) (i : MarkSentInput) (j : MarkFailedInput) (t : Table)
    → AreKeyed t
    → AreKeyed (mark_sent db now i t).0 × AreKeyed (mark_failed db now j t).0
unfolding mark_sent mark_failed
mark-AreKeyed works now i j t k =
    (upsert-AreKeyed (sent_row now i) t k, upsert-AreKeyed (failed_row now j) t k)
mark-AreKeyed (fails e) now i j t k = (k, k)

pub list_pending_lem :
    (keys : List ResumeKey) (t : Table)
    → list_pending (λ key. works) keys t ≡ ok (keep (λ key. not (row_is_sent (select key t))) keys)
unfolding list_pending is_done
list_pending_lem [] t = refl
list_pending_lem (key ∷ keys) t = rw (list_pending_lem keys t) (ground arith)

-- Where the driver works, an item that was marked sent is not pending; of the others those are,
-- in the order given, which were not done before.
pub list_pending-mark_sent :
    (now : ℕ) (i : MarkSentInput) (keys : List ResumeKey) (t : Table)
    → list_pending (λ key. works) keys (mark_sent works now i t).0
      ≡ ok (keep (λ key. not (same_key i.key key || row_is_sent (select key t))) keys)
unfolding mark_sent row_is_sent
list_pending-mark_sent now i keys t =
    list_pending_lem keys _ ∙ ap (λ p. ok (keep p keys)) (fun_ext (λ key. pending key))
  where
    pending :
        (key : ResumeKey)
        → not (row_is_sent (select key (upsert (sent_row now i) t)))
          ≡ not (same_key i.key key || row_is_sent (select key t))
    pending key = ground (arith, select-upsert (sent_row now i) key t)
