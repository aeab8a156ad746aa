-- ===== src/Upload/Send/Retry.antt =====
-- The retry loop of `sendWithRetry` (internal/upload/run.go) against its description without fuel.
use tgup.Prelude.{ℕ, suc, Bool, true, false, not, ◌&&◌, some, List, ◌≡◌, arith, if◌then◌else◌}
use tgup.Prelude.Text.{Text, codes, text_eq}
use tgup.Errors.{Error, Result, ok, err, is_image_process_failed}
use tgup.Upload.Model.{AlbumFile, ResolvedTarget, SendResult, Input}
use tgup.Upload.Send.{send_album_once, retries_as_document, send_loop}

-- Whether an answer makes the files go out a second time, as documents.
unfoldable pub wants_document : Text → Bool → {A : Type 0} → Result A → Bool
wants_document mode document (ok a) = false
wants_document mode document (err e) =
    is_image_process_failed e && not document && text_eq mode (codes "auto")

no_third_round : (mode : Text) (n : ℕ) (e : Error) → retries_as_document mode true n e ≡ false
unfolding retries_as_document
no_third_round mode n e = ground arith

module _ {W S : Type 0} where
  -- The sending as one or two calls of the transport.
  unfoldable pub send_twice :
      Input W S → List AlbumFile → ResolvedTarget → Text → Bool → W → W × Result SendResult
  unfolding wants_document
  send_twice inp files target mode document w =
      let (w', answer) = send_album_once inp files target document w in
      if wants_document mode document answer
      then send_album_once inp files target true w'
      else (w', answer)

  second_round :
      (inp : Input W S) (files : List AlbumFile) (target : ResolvedTarget) (mode : Text) (n : ℕ)
      (w : W)
      → send_loop (suc n) inp files target mode true 1 w
        ≡ some (send_album_once inp files target true w)
  unfolding send_loop
  second_round inp files target mode n w = ground (arith, no_third_round mode)

  -- The loop returns after at most two rounds, whatever further fuel it has: it sends the files
  -- once, and a second time as documents exactly when the first answer was a failed image, the
  -- mode is "auto" and they did not go out as documents already.
  pub send_loop-returns :
      (inp : Input W S) (files : List AlbumFile) (target : ResolvedTarget) (mode : Text)
      (document : Bool) (n : ℕ) (w : W)
      → send_loop (suc (suc n)) inp files target mode document 0 w
        ≡ some (send_twice inp files target mode document w)
  unfolding send_loop retries_as_document send_twice wants_document
  send_loop-returns inp files target mode document n w =
      ground (arith, no_third_round mode, second_round inp files target mode n)
