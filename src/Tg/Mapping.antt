-- ===== src/Tg/Mapping.antt =====
-- The errors of the library as errors of the program (internal/tg/gotd_errors.go). What the
-- library, package errors and package net say of an error is a record of functions.
use tgup.Prelude.{ℕ, Bool, not, ◌||◌, Option, none, some, ◌++◌, if◌then◌else◌}
use tgup.Prelude.Int.{ℤ, pos, ltb_ℤ, eq_ℤ}
use tgup.Prelude.Text.{Text, codes, decimal_ℤ}
use tgup.Errors.{
  Error, plain, wrapped, auth_required, retryable_transport, image_process_failed, flood_wait,
}

pub record RpcError : Type 0 where
  pub code : ℤ
  pub message : Text

-- A flood wait has a duration, and its text.
pub record Gotd (E : Type 0) : Type 0 where
  pub is_canceled : E → Bool
  pub is_deadline : E → Bool
  pub as_flood_wait : E → Option (ℕ × Text)
  pub is_type : E → Text → Bool
  pub as_rpc : E → Option RpcError
  pub is_conn_dead : E → Bool
  pub is_net_error : E → Bool
  pub is_eof : E → Bool
  pub is_unexpected_eof : E → Bool
  pub text : E → Text

-- An error of the program, or the library's own, handed on.
pub data Mapped (E : Type 0) : Type 0 where
  unchanged : E → Mapped E
  app : Error → Mapped E

-- The `switch` over the code of an RPC error.
unfoldable pub rpc_error : {E : Type 0} → RpcError → Mapped E
rpc_error r =
    if eq_ℤ r.code (pos 401)
    then app (wrapped (r.message ++ codes ": telegram auth required") auth_required)
    else if not (ltb_ℤ r.code (pos 500))
    then app (wrapped (r.message ++ codes ": retryable transport error") retryable_transport)
    else app (
        plain (codes "telegram: " ++ r.message ++ codes " (code " ++ decimal_ℤ r.code ++ codes ")"))

module _ {E : Type 0} (g : Gotd E) where
  unfoldable pub from_context : E → Bool
  from_context e = g.is_canceled e || g.is_deadline e

  unfoldable pub photo_rejected : E → Bool
  photo_rejected e =
      g.is_type e (codes "IMAGE_PROCESS_FAILED") || g.is_type e (codes "PHOTO_SAVE_FILE_INVALID")

  unfoldable pub connection_lost : E → Bool
  connection_lost e =
      g.is_conn_dead e || (g.is_net_error e || (g.is_eof e || g.is_unexpected_eof e))

  unfoldable pub map_rpc : E → Option RpcError → Mapped E
  unfolding rpc_error connection_lost
  map_rpc e (some r) = rpc_error r
  map_rpc e none =
      if connection_lost e
      then app (wrapped (g.text e ++ codes ": retryable transport error") retryable_transport)
      else unchanged e

  unfoldable pub map_flood : E → Option (ℕ × Text) → Mapped E
  unfolding map_rpc photo_rejected
  map_flood e (some (wait, text)) = app (flood_wait wait text)
  map_flood e none = if photo_rejected e then app image_process_failed else map_rpc e (g.as_rpc e)

  -- `mapGotdError` of an error.
  unfoldable pub map_gotd_error : E → Mapped E
  unfolding map_flood from_context
  map_gotd_error e = if from_context e then unchanged e else map_flood e (g.as_flood_wait e)
