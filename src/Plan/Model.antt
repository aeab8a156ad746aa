-- ===== src/Plan/Model.antt =====
-- The data of a plan (internal/plan/model.go and the types of internal/plan/build.go).
use tgup.Prelude.{ℕ, Bool, List}
use tgup.Prelude.Text.{Text}
use tgup.Prelude.Int.{ℤ}
use tgup.Scan.Model.{Item}

pub record Options : Type 0 where
  pub order : Text
  pub reverse : Bool
  pub album_max : ℤ

pub record GroupKey : Type 0 where
  pub src_root : Text
  pub parent_dir : Text

pub record Album : Type 0 where
  pub label : Text
  pub items : List Item

pub record Plan : Type 0 where
  pub albums : List Album

abbrev pub default_album_max : ℕ
default_album_max = 10
