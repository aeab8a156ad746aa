-- ===== src/Config/Validate.antt =====
-- Checking settings (internal/config/validate.go). `errors.Join` of no error is no error: the result
-- is the list of the errors.
use tgup.Prelude.{Bool, false, not, ◌&&◌, ◌||◌, List, [], ◌∷◌, ◌++◌, length, ◌==◌, if◌then◌else◌}
use tgup.Prelude.Text.{Text, codes, text_eq, to_lower, trim_space, has_prefix}
use tgup.Prelude.Int.{ℤ, pos, ltb_ℤ, eq_ℤ}
use tgup.Config.Model.{Config}

pub record ValidationError : Type 0 where
  pub field_name : Text
  pub reason : Text

unfoldable pub one_of : Text → List Text → Bool
one_of value [] = false
one_of value (candidate ∷ allowed) = text_eq value candidate || one_of value allowed

-- A test of a field, and the error where it fails.
pub record Check : Type 0 where
  pub passes : Bool
  pub error : ValidationError

abbrev check : Bool → Text → Text → Check
check b name why = record { passes = b; error = record { field_name = name; reason = why } }

unfoldable pub failures : List Check → List ValidationError
failures [] = []
failures (c ∷ cs) = let rest = failures cs in if c.passes then rest else c.error ∷ rest

-- The tests of `ValidateTelegram`, which are the first ones of `Validate`.
abbrev pub telegram_checks : Config → List Check
telegram_checks cfg =
    check (not (eq_ℤ cfg.telegram.api_id (pos 0))) (codes "telegram.api_id")
      (codes "must be set (non-zero)")
    ∷ check (not (text_eq cfg.telegram.api_hash (codes ""))) (codes "telegram.api_hash")
        (codes "must be set (non-empty)")
    ∷ []

unfoldable pub port_in_range : ℤ → Bool
port_in_range port = ltb_ℤ (pos 0) port && not (ltb_ℤ (pos 65535) port)

-- The other tests of `Validate`.
abbrev pub other_checks : Config → List Check
other_checks cfg =
    check (not (length cfg.scan.src == 0)) (codes "scan.src")
      (codes "must contain at least one source path")
    ∷ check
        (one_of (to_lower cfg.plan.order)
          (codes "name" ∷ codes "mtime" ∷ codes "size" ∷ codes "random" ∷ []))
        (codes "plan.order") (codes "must be one of: name, mtime, size, random")
    ∷ check (ltb_ℤ (pos 0) cfg.plan.album_max) (codes "plan.album_max") (codes "must be > 0")
    ∷ check (ltb_ℤ (pos 0) cfg.upload.concurrency_album) (codes "upload.concurrency_album")
        (codes "must be > 0")
    ∷ check (one_of (to_lower cfg.upload.parse_mode) (codes "plain" ∷ codes "md" ∷ []))
        (codes "upload.parse_mode") (codes "must be one of: plain, md")
    ∷ check
        (one_of (to_lower cfg.upload.image_mode)
          (codes "auto" ∷ codes "photo" ∷ codes "document" ∷ codes "compress" ∷ []))
        (codes "upload.image_mode") (codes "must be one of: auto, photo, document, compress")
    ∷ check (not (text_eq (trim_space cfg.upload.video_thumbnail) (codes "")))
        (codes "upload.video_thumbnail") (codes "must be auto, off, or a file path")
    ∷ check
        (one_of (to_lower cfg.upload.duplicate) (codes "skip" ∷ codes "ask" ∷ codes "upload" ∷ []))
        (codes "upload.duplicate") (codes "must be one of: skip, ask, upload")
    ∷ check (not cfg.mcp.enabled || port_in_range cfg.mcp.port) (codes "mcp.port")
        (codes "must be in range 1..65535 when MCP is enabled")
    ∷ []

-- `ValidateTelegram`.
unfoldable pub validate_telegram : Config → List ValidationError
unfolding failures
validate_telegram cfg = failures (telegram_checks cfg)

-- `Validate`.
unfoldable pub validate : Config → List ValidationError
unfolding failures
validate cfg = failures (telegram_checks cfg ++ other_checks cfg)

-- One extension; `none` of the loop's `continue` is the empty text.
unfoldable pub normalize_ext : Text → Text
normalize_ext ext =
    let e = trim_space (to_lower ext) in
    if text_eq e (codes "")
    then codes ""
    else if has_prefix e (codes ".")
    then e
    else codes "." ++ e

-- `normalizeExtensions`.
unfoldable pub normalize_extensions : List Text → List Text
unfolding normalize_ext
normalize_extensions [] = []
normalize_extensions (ext ∷ exts) =
    let rest = normalize_extensions exts in
    if text_eq (normalize_ext ext) (codes "") then rest else normalize_ext ext ∷ rest
