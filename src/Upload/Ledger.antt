-- ===== src/Upload/Ledger.antt =====
-- The steps of an album that leave the counters and the store as they are (internal/upload/run.go).
use tgup.Prelude.{
  ℕ, ◌≡◌, refl, ◌∙◌, Bool, true, false, List, [], ◌∷◌, map, Bool-cases, inl, inr, Option, none,
  some, arith,
}
use tgup.Prelude.Text.{Text, codes, text_eq}
use tgup.Errors.{Result, ok, err}
use tgup.Upload.Model.{AlbumFile, Event, ResolvedTarget, SendResult, Input, Progress, resume_key}
use tgup.Upload.Send.{
  normalized, clean_all, emit_event, emit_if, measured, compressed, compress_images, send_files,
  send_compressed, send_with_retry,
}
use tgup.Upload.Send.Retry.{send_twice, send_loop-returns}
use tgup.Upload.Steps.{
  Totals, emit_progress, thumbnailed, auto_thumbnails, try_thumbnails, thumbnails, set_thumbnail,
}

pub record Counts : Type 0 where
  pub sent : ℕ
  pub failed : ℕ
  pub skipped : ℕ
  pub sent_albums : ℕ
  pub failed_albums : ℕ

abbrev pub counts : {W S : Type 0} → Progress W S → Counts
counts p = record {
  sent = p.sent_files;
  failed = p.failed_files;
  skipped = p.skipped_files;
  sent_albums = p.sent_albums;
  failed_albums = p.failed_albums;
}

-- The counters and the store.
abbrev pub ledger : {W S : Type 0} → Progress W S → Counts × S
ledger p = (counts p, p.store)

keys-set_thumbnails :
    (path : Text) (files : List AlbumFile)
    → map resume_key (map (set_thumbnail path) files) ≡ map resume_key files
unfolding set_thumbnail resume_key
keys-set_thumbnails path [] = refl
keys-set_thumbnails path (f ∷ fs) = ground (arith, keys-set_thumbnails path fs)

module _ {W S : Type 0} where
  pub ledger-emit_event :
      (inp : Input W S) (e : Event) (p : Progress W S) → ledger (emit_event inp e p) ≡ ledger p
  unfolding emit_event
  ledger-emit_event inp e p = ground arith

  pub ledger-emit_if :
      (b : Bool) (inp : Input W S) (e : Event) (p : Progress W S)
      → ledger (emit_if b inp e p) ≡ ledger p
  unfolding emit_if
  ledger-emit_if true inp e p = ledger-emit_event inp e p
  ledger-emit_if false inp e p = refl

  pub ledger-emit_progress :
      (inp : Input W S) (totals : Totals) (label : Text) (p : Progress W S)
      → ledger (emit_progress inp totals label p) ≡ ledger p
  unfolding emit_progress
  ledger-emit_progress inp totals label p = ground arith

  ledger-thumbnailed :
      (inp : Input W S) (label : Text) (f : AlbumFile) (answer : W × Result (Text × (W → W)))
      (p : Progress W S)
      → (ledger (thumbnailed inp label f answer p).0 ≡ ledger p)
        × (resume_key (thumbnailed inp label f answer p).1 ≡ resume_key f)
  unfolding thumbnailed resume_key
  ledger-thumbnailed inp label f (w, ok (path, cleanup)) p = (refl, refl)
  ledger-thumbnailed inp label f (w, err e) p = (ledger-emit_event inp _ _, refl)

  ledger-auto_thumbnails :
      (inp : Input W S) (label : Text) (extract : Text → W → W × Result (Text × (W → W)))
      (files : List AlbumFile) (p : Progress W S)
      → (ledger (auto_thumbnails inp label extract files p).0 ≡ ledger p)
        × (map resume_key (auto_thumbnails inp label extract files p).1 ≡ map resume_key files)
  unfolding auto_thumbnails
  ledger-auto_thumbnails inp label extract [] p = (refl, refl)
  ledger-auto_thumbnails inp label extract (f ∷ fs) p = ground (
    arith,
    ledger-thumbnailed inp label f (extract f.path p.world) p,
    ledger-auto_thumbnails inp label extract fs p,
    ledger-auto_thumbnails inp label extract fs
        (thumbnailed inp label f (extract f.path p.world) p).0,
  )

  ledger-try_thumbnails :
      (inp : Input W S) (label : Text) (extract : Option (Text → W → W × Result (Text × (W → W))))
      (files : List AlbumFile) (p : Progress W S)
      → (ledger (try_thumbnails inp label extract files p).0 ≡ ledger p)
        × (map resume_key (try_thumbnails inp label extract files p).1 ≡ map resume_key files)
  unfolding try_thumbnails
  ledger-try_thumbnails inp label none files p = (refl, refl)
  ledger-try_thumbnails inp label (some extract) files p =
      ledger-auto_thumbnails inp label extract files p

  pub ledger-thumbnails :
      (inp : Input W S) (label : Text) (files : List AlbumFile) (p : Progress W S)
      → (ledger (thumbnails inp label files p).0 ≡ ledger p)
        × (map resume_key (thumbnails inp label files p).1 ≡ map resume_key files)
  unfolding thumbnails
  ledger-thumbnails inp label files p = ground (
    arith,
    keys-set_thumbnails inp.config.video_thumbnail files,
    ledger-try_thumbnails inp label inp.services.extract_thumbnail files p,
  )

  ledger-measured :
      (inp : Input W S) (f : AlbumFile) (path : Text) (cleanup : W → W) (answer : W × Result ℕ)
      (p : Progress W S)
      → ledger (measured inp f path cleanup answer p).0 ≡ ledger p
  unfolding measured
  ledger-measured inp f path cleanup (w, ok size) p = refl
  ledger-measured inp f path cleanup (w, err e) p = refl

  ledger-compressed :
      (inp : Input W S) (f : AlbumFile) (answer : W × Result (Text × (W → W))) (p : Progress W S)
      → ledger (compressed inp f answer p).0 ≡ ledger p
  unfolding compressed
  ledger-compressed inp f (w, ok (path, cleanup)) p =
      ground (arith, ledger-measured inp f path cleanup)
  ledger-compressed inp f (w, err e) p = ledger-emit_event inp _ _

  ledger-compress_images :
      (inp : Input W S) (files : List AlbumFile) (p : Progress W S)
      → ledger (compress_images inp files p).0 ≡ ledger p
  unfolding compress_images
  ledger-compress_images inp [] p = refl
  ledger-compress_images inp (f ∷ fs) p = ground (
    arith,
    ledger-compressed inp f (inp.services.compress f.path p.world) p,
    ledger-compress_images inp fs p,
    ledger-compress_images inp fs (compressed inp f (inp.services.compress f.path p.world) p).0,
  )

  -- Sending returns, and changes neither counters nor the store.
  ledger-send_files :
      (inp : Input W S) (files : List AlbumFile) (target : ResolvedTarget) (mode : Text)
      (p : Progress W S)
      → (r : Progress W S × Result SendResult) × (send_files inp files target mode p ≡ some r)
        × (ledger r.0 ≡ ledger p)
  unfolding send_files
  ledger-send_files inp files target mode p =
      let (w, answer) =
        send_twice inp files target mode (text_eq mode (codes "document")) p.world in
      (
        (record p { world = w }, answer),
        ground (
          arith,
          send_loop-returns inp files target mode (text_eq mode (codes "document")) 0 p.world,
        ),
        refl,
      )

  ledger-send_compressed :
      (inp : Input W S) (target : ResolvedTarget) (mode : Text) (p : Progress W S)
      (files : List AlbumFile) (cleanups : List (W → W))
      → (r : Progress W S × Result SendResult) × (send_compressed inp target mode
            (p, files, cleanups)
          ≡ some r)
        × (ledger r.0 ≡ ledger p)
  unfolding send_compressed
  ledger-send_compressed inp target mode p files cleanups =
      let ((p', answer), e, l) = ledger-send_files inp files target mode p in
      ((record p' { world = clean_all cleanups p'.world }, answer), ground (arith, e), l)

  pub ledger-send_with_retry :
      (inp : Input W S) (files : List AlbumFile) (target : ResolvedTarget) (p : Progress W S)
      → (r : Progress W S × Result SendResult) × (send_with_retry inp files target p ≡ some r)
        × (ledger r.0 ≡ ledger p)
  unfolding send_with_retry
  ledger-send_with_retry inp files target p =
      let mode = normalized inp.config.image_mode in
      elim (Bool-cases (text_eq mode (codes "compress"))) [
        | inl e ↦
            let (r, eq, l) =
              ledger-send_compressed inp target mode (compress_images inp files p).0
                (compress_images inp files p).1 (compress_images inp files p).2 in
            (r, ground (arith, e, eq), l ∙ ledger-compress_images inp files p)
        | inr e ↦
            let (r, eq, l) = ledger-send_files inp files target mode p in
            (r, ground (arith, e, eq), l)
      ]
