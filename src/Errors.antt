-- ===== src/Errors.antt =====
-- Errors (internal/xerrors and internal/tg/errors.go). An error is a message, a message that
-- wraps an error (`%w` of package fmt), an app-owned error, which may wrap another, or one of
-- the errors of internal/tg.
use tgup.Prelude.{ℕ, Bool, true, false, Option, none, some, ◌++◌, if◌then◌else◌}
use tgup.Prelude.Text.{Text, codes, text_eq}

pub data Code : Type 0 where
  config scan upload auth state security mcp retryable non_retryable interrupted : Code

unfoldable pub code_text : Code → Text
code_text config = codes "config_error"
code_text scan = codes "scan_error"
code_text upload = codes "upload_error"
code_text auth = codes "auth_error"
code_text state = codes "state_error"
code_text security = codes "security_error"
code_text mcp = codes "mcp_error"
code_text retryable = codes "retryable_error"
code_text non_retryable = codes "non_retryable_error"
code_text interrupted = codes "interrupted_error"

pub data Error : Type 0 where
  plain : Text → Error
  wrapped : Text → Error → Error
  typed : Code → Text → Error
  typed_over : Code → Text → Error → Error
  auth_required retryable_transport image_process_failed : Error
  flood_wait : ℕ → Text → Error  -- the wait in nanoseconds, and as `Wait.String()`

-- `Error()`; a message that wraps an error holds the text of it already.
unfoldable pub error_text : Error → Text
unfolding code_text
error_text (plain m) = m
error_text (wrapped m e) = m
error_text (typed c m) =
    if text_eq m (codes "") then code_text c else code_text c ++ codes ": " ++ m
error_text (typed_over c m e) =
    let inner = error_text e in
    if text_eq m (codes "")
    then code_text c ++ codes ": " ++ inner
    else code_text c ++ codes ": " ++ m ++ codes ": " ++ inner
error_text auth_required = codes "telegram auth required"
error_text retryable_transport = codes "retryable transport error"
error_text image_process_failed = codes "IMAGE_PROCESS_FAILED"
error_text (flood_wait d text) = codes "FLOOD_WAIT_" ++ text

-- `Wrap`.
unfoldable pub wrap : Code → Text → Option Error → Error
wrap c m none = typed c m
wrap c m (some e) = typed_over c m e

-- The first app-owned error of a chain, as `errors.As` finds it.
unfoldable pub find_typed : Error → Option Code
find_typed (plain m) = none
find_typed (wrapped m e) = find_typed e
find_typed (typed c m) = some c
find_typed (typed_over c m e) = some c
find_typed _ = none

unfoldable pub code_eq : Option Code → Code → Bool
unfolding code_text
code_eq none c = false
code_eq (some d) c = text_eq (code_text d) (code_text c)

-- `IsCode`.
unfoldable pub is_code : Error → Code → Bool
unfolding find_typed code_eq
is_code e c = code_eq (find_typed e) c

-- `IsImageProcessFailed`: the chain of wrapped errors holds such an error.
unfoldable pub is_image_process_failed : Error → Bool
is_image_process_failed image_process_failed = true
is_image_process_failed (wrapped m e) = is_image_process_failed e
is_image_process_failed (typed_over c m e) = is_image_process_failed e
is_image_process_failed _ = false

-- `FloodWaitDuration`.
unfoldable pub flood_wait_duration : Error → ℕ
flood_wait_duration (flood_wait d text) = d
flood_wait_duration (wrapped m e) = flood_wait_duration e
flood_wait_duration (typed_over c m e) = flood_wait_duration e
flood_wait_duration _ = 0

-- `IsRetryable`.
unfoldable pub is_retryable : Error → Bool
is_retryable retryable_transport = true
is_retryable (wrapped m e) = is_retryable e
is_retryable (typed_over c m e) = is_retryable e
is_retryable _ = false

-- A result with the error of the source.
pub data Result {ℓ} (A : Type ℓ) : Type ℓ where
  ok : A → Result A
  err : Error → Result A
