-- ===== src/Upload/Resume/Sqlite.antt =====
-- The SQLite store as the pipeline's store (internal/state/sqlite_store.go, whose methods are the
-- interface `Store` of internal/state/store.go).
use tgup.Prelude.{ℕ, arith, ◌∙◌}
use tgup.State.Store.{Table, works, is_done, mark_sent, mark_failed}
use tgup.State.Marks.{is_done-mark, same_key_iff}
use tgup.Upload.Model.{Store}
use tgup.Upload.Resume.{StoreLaws}

-- The store on a working database, at the clock's reading `now`.
abbrev pub sqlite_store : ℕ → Store Table
sqlite_store now = record {
  is_done = is_done works;
  mark_sent = mark_sent works now;
  mark_failed = mark_failed works now;
}

-- The SQLite store keeps what the pipeline relies on: what is marked sent is done, and a mark undoes
-- no other file.
pub sqlite_store-laws : (now : ℕ) → StoreLaws (sqlite_store now)
sqlite_store-laws now = record {
  marks = λ i t.
      (is_done-mark now i (record { key = i.key; target = i.target; error_reason = i.target }) t
        i.key).0
      ∙ ground (arith, same_key_iff i.key i.key);
  keeps = λ i t key h.
      (is_done-mark now i (record { key = i.key; target = i.target; error_reason = i.target }) t
        key).0
      ∙ ground (arith, h);
}
