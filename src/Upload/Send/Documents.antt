-- ===== src/Upload/Send/Documents.antt =====
-- When the files of an album go out again as documents: the errors of the transport
-- (internal/tg/gotd_errors.go: `mapGotdError`) in the retry loop of internal/upload/run.go.
use tgup.Prelude.{
  ℕ, suc, ◌≡◌, refl, inl, inr, Bool, true, false, not, ◌&&◌, ◌||◌, Option, none, some, List, ◌∙◌,
  if◌then◌else◌, Bool-cases,
}
use tgup.Prelude.Int.{pos, ltb_ℤ, eq_ℤ}
use tgup.Prelude.Text.{Text, codes, text_eq}
use tgup.Errors.{Error, plain, err, is_image_process_failed}
use tgup.Tg.Mapping.{
  RpcError, Gotd, Mapped, unchanged, app, rpc_error, from_context, photo_rejected, connection_lost,
  map_rpc, map_flood, map_gotd_error,
}
use tgup.Upload.Model.{AlbumFile, ResolvedTarget, Input}
use tgup.Upload.Send.{send_album_once, send_loop}
use tgup.Upload.Send.Retry.{send_twice, send_loop-returns, wants_document}

abbrev is_flood : Option (ℕ × Text) → Bool
is_flood none = false
is_flood (some w) = true

module _ {E : Type 0} (g : Gotd E) where
  -- What the pipeline gets; an error of the library alone is none of the program's.
  abbrev pub seen : Mapped E → Error
  seen (unchanged e) = plain (g.text e)
  seen (app x) = x

  -- The library rejects a photo, and says nothing of the context or of a wait.
  abbrev pub rejects_photo : E → Bool
  rejects_photo e =
      not (g.is_canceled e || g.is_deadline e)
      && (not (is_flood (g.as_flood_wait e))
          && (g.is_type e (codes "IMAGE_PROCESS_FAILED")
              || g.is_type e (codes "PHOTO_SAVE_FILE_INVALID")))

  rpc-seen : (e : E) (r : Option RpcError) → is_image_process_failed (seen (map_rpc g e r)) ≡ false
  unfolding map_rpc rpc_error is_image_process_failed
  rpc-seen e none = elim (Bool-cases (connection_lost g e)) [
    | inl lost ↦ rw lost refl
    | inr held ↦ rw held refl
  ]
  rpc-seen e (some r) = elim (Bool-cases (eq_ℤ r.code (pos 401))) [
    | inl login ↦ rw login refl
    | inr known ↦ rw known (elim (Bool-cases (ltb_ℤ r.code (pos 500))) [
      | inl client ↦ rw client refl
      | inr server ↦ rw server refl
    ])
  ]

  flood-seen :
      (e : E) (f : Option (ℕ × Text))
      → is_image_process_failed (seen (map_flood g e f)) ≡ not (is_flood f) && photo_rejected g e
  unfolding map_flood is_image_process_failed
  flood-seen e (some w) = refl
  flood-seen e none = elim (Bool-cases (photo_rejected g e)) [
    | inl rejected ↦ rw rejected refl
    | inr taken ↦ rw taken (rpc-seen e (g.as_rpc e))
  ]

  seen-rejects_photo :
      (e : E) → is_image_process_failed (seen (map_gotd_error g e)) ≡ rejects_photo e
  unfolding map_gotd_error from_context photo_rejected is_image_process_failed
  seen-rejects_photo e = elim (Bool-cases (from_context g e)) [
    | inl ours ↦ rw ours refl
    | inr other ↦ rw other (flood-seen e (g.as_flood_wait e))
  ]

  -- Where the first call of the transport fails with an error of the library, mapped, the retry loop
  -- makes a second call, which sends the files as documents, exactly if the library rejects a photo
  -- (and says nothing of the context or of a flood wait), the files did not go out as documents and
  -- the mode is "auto"; otherwise it returns the error.
  pub resends_as_document :
      {W S : Type 0} (inp : Input W S) (files : List AlbumFile) (target : ResolvedTarget)
      (mode : Text) (document : Bool) (n : ℕ) (w w' : W) (e : E)
      → send_album_once inp files target document w ≡ (w', err (seen (map_gotd_error g e)))
      → send_loop (suc (suc n)) inp files target mode document 0 w
        ≡ some (
            if rejects_photo e && not document && text_eq mode (codes "auto")
            then send_album_once inp files target true w'
            else (w', err (seen (map_gotd_error g e))))
  unfolding send_twice wants_document
  resends_as_document inp files target mode document n w w' e first =
      send_loop-returns inp files target mode document n w ∙ rw (first, seen-rejects_photo e) refl
