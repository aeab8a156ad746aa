-- ===== src/State/Store.antt =====
-- The operations of `SQLiteStore` on the table `uploads` (internal/state/sqlite_store.go). A
-- statement either does what it says or fails with the driver's error and changes nothing; `db`
-- says which. `now` is the clock's reading.
use tgup.Prelude.{ℕ, List, [], ◌∷◌, Bool, true, false, Option, none, some, if◌then◌else◌}
use tgup.Prelude.Text.{codes}
use tgup.Errors.{Error, Result, ok, err, wrap, state}
use tgup.State.Model.{
  ResumeKey, UploadStatus, sent, failed, UploadRow, MarkSentInput, MarkFailedInput, same_key,
}

abbrev pub Table : Type 0
Table = List UploadRow

-- How the driver answers.
pub data Db : Type 0 where
  works : Db
  fails : Error → Db

unfoldable pub is_sent : UploadStatus → Bool
is_sent sent = true
is_sent failed = false

-- The row with a key: the first one, and by the primary key the only one.
unfoldable pub select : ResumeKey → Table → Option UploadRow
select key [] = none
select key (row ∷ rows) =
    let rest = select key rows in if same_key row.key key then some row else rest

-- `INSERT … ON CONFLICT(path, size, mtime_ns) DO UPDATE`: the row that is there keeps its
-- `created_at`.
unfoldable pub upsert : UploadRow → Table → Table
upsert new [] = new ∷ []
upsert new (row ∷ rows) =
    let rest = upsert new rows in
    if same_key row.key new.key
    then record new { key = row.key; created_at = row.created_at } ∷ rows
    else row ∷ rest

unfoldable pub sent_row : ℕ → MarkSentInput → UploadRow
sent_row now i = record {
  key = i.key;
  status = sent;
  target = i.target;
  error_reason = codes "";
  message_ids = i.message_ids;
  album_group_id = i.album_group_id;
  created_at = now;
  updated_at = now;
}

unfoldable pub failed_row : ℕ → MarkFailedInput → UploadRow
failed_row now i = record {
  key = i.key;
  status = failed;
  target = i.target;
  error_reason = i.error_reason;
  message_ids = [];
  album_group_id = codes "";
  created_at = now;
  updated_at = now;
}

unfoldable pub mark_sent : Db → ℕ → MarkSentInput → Table → Table × Option Error
unfolding sent_row
mark_sent works now i t = (upsert (sent_row now i) t, none)
mark_sent (fails e) now i t = (t, some (wrap state (codes "mark sent") (some e)))

unfoldable pub mark_failed : Db → ℕ → MarkFailedInput → Table → Table × Option Error
unfolding failed_row
mark_failed works now i t = (upsert (failed_row now i) t, none)
mark_failed (fails e) now i t = (t, some (wrap state (codes "mark failed") (some e)))

-- `status == "sent"`, and `false` for `sql.ErrNoRows`.
unfoldable pub row_is_sent : Option UploadRow → Bool
unfolding is_sent
row_is_sent none = false
row_is_sent (some row) = is_sent row.status

unfoldable pub is_done : Db → ResumeKey → Table → Result Bool
unfolding row_is_sent
is_done works key t = ok (row_is_sent (select key t))
is_done (fails e) key t = err (wrap state (codes "check done") (some e))

-- The loop of `ListPending`; one answer of the driver for each item.
unfoldable pub list_pending : (ResumeKey → Db) → List ResumeKey → Table → Result (List ResumeKey)
list_pending db [] t = ok []
list_pending db (key ∷ keys) t = elim (is_done (db key) key t) [
  | err e ↦ err e
  | ok done ↦ elim (list_pending db keys t) [
    | err e ↦ err e
    | ok out ↦ ok (if done then out else key ∷ out)
  ]
]

unfoldable pub get_upload_row : Db → ResumeKey → Table → Result (Option UploadRow)
get_upload_row works key t = ok (select key t)
get_upload_row (fails e) key t = err (wrap state (codes "get upload row") (some e))
