-- ===== src/Upload/Keys.antt =====
-- Probing and the precheck keep the files' keys (internal/upload/precheck.go).
use tgup.Prelude.{◌≡◌, refl, List, [], ◌∷◌, map, Option, none, some, arith}
use tgup.Prelude.Text.{Text}
use tgup.Errors.{Result, ok, err}
use tgup.Media.Model.{VideoMetadata}
use tgup.Upload.Model.{AlbumFile, resume_key}
use tgup.Upload.Checks.{PrecheckResult, probed, probe_all, precheck_album}

keys-probed :
    (f : AlbumFile) (answer : Result VideoMetadata) (fs : List AlbumFile) (r : PrecheckResult)
    → map resume_key (probed f answer (fs, r)).0 ≡ resume_key f ∷ map resume_key fs
unfolding probed resume_key
keys-probed f (ok m) fs r = refl
keys-probed f (err e) fs r = refl

module _ {W : Type 0} where
  keys-probe_all :
      (probe : Text → W → W × Result VideoMetadata) (files : List AlbumFile) (w : W)
      → map resume_key (probe_all probe files w).1 ≡ map resume_key files
  unfolding probe_all
  keys-probe_all probe [] w = refl
  keys-probe_all probe (f ∷ fs) w = ground (
    arith,
    keys-probe_all probe fs w,
    keys-probe_all probe fs (probe f.path w).0,
    keys-probed f (probe f.path w).1 (probe_all probe fs (probe f.path w).0).1
        (probe_all probe fs (probe f.path w).0).2,
  )

  -- The precheck changes no file's key.
  pub keys-precheck_album :
      (probe : Option (Text → W → W × Result VideoMetadata)) (files : List AlbumFile) (w : W)
      → map resume_key (precheck_album probe files w).1 ≡ map resume_key files
  unfolding precheck_album
  keys-precheck_album none files w = refl
  keys-precheck_album (some probe) files w = keys-probe_all probe files w
