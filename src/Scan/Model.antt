-- ===== src/Scan/Model.antt =====
-- The items that discovery finds (internal/scan/model.go).
use tgup.Prelude.{ℕ}
use tgup.Prelude.Text.{Text}
use tgup.Prelude.Int.{ℤ}

-- `Kind` is a string in the source; `other` stands for every other text.
pub data Kind : Type 0 where
  image video other : Kind

pub record Item : Type 0 where
  pub path : Text
  pub src_root : Text
  pub parent_dir : Text
  pub size : ℕ
  pub mtime_ns : ℤ
  pub kind : Kind
