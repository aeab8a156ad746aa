-- ===== src/Upload/Resume/Filter.antt =====
-- What the resume filter of `processAlbum` leaves out (internal/upload/run.go).
use tgup.Prelude.{
  ◌≡◌, refl, ap, ◌∙◌, Bool, true, false, List, [], ◌∷◌, map, Bool-cases, inl, inr, some, arith,
}
use tgup.Prelude.Text.{Text}
use tgup.Errors.{Result, ok, err}
use tgup.Upload.Model.{AlbumFile, Store, Progress, resume_key}
use tgup.Upload.Steps.{is_skipped, skip_file, filter_done}
use tgup.Upload.Steps.{pending_in}
use tgup.State.Model.{ResumeKey}
use tgup.Prelude.{All}
use tgup.Upload.Resume.{IsDone}
use mathlib.Core.Path.{subst}
use tgup.Upload.Model.{Config}

skipped-IsDone :
    {S : Type 0} (duplicate : Text) (store : Store S) (key : ResumeKey) (s : S)
    → is_skipped duplicate (store.is_done key s) ≡ true
    → IsDone store s key
unfolding is_skipped
skipped-IsDone duplicate store key s h = go (store.is_done key s) h
  where
    go : (answer : Result Bool) → is_skipped duplicate answer ≡ true → answer ≡ ok true
    go (ok true) h = refl
    go (ok false) h = ground arith
    go (err e) h = ground arith

module _ {W S : Type 0} (store : Store S) where
  -- The resume filter touches neither the store nor the failures, and what it leaves out is done.
  filter_done-covers :
      (duplicate : Text) (files : List AlbumFile) (p : Progress W S)
      → ((filter_done duplicate store files p).0.store ≡ p.store)
        × ((filter_done duplicate store files p).0.failed_files ≡ p.failed_files)
        × ((s : S)
            → ((key : ResumeKey) → IsDone store p.store key → IsDone store s key)
            → All (IsDone store s) (map resume_key (filter_done duplicate store files p).1)
            → All (IsDone store s) (map resume_key files))
  unfolding filter_done
  filter_done-covers duplicate [] p = (refl, refl, λ s keep all. tt)
  filter_done-covers duplicate (f ∷ fs) p =
      elim (Bool-cases (is_skipped duplicate (store.is_done (resume_key f) p.store))) [
        | inl e ↦
            let (st, fl, covers) = filter_done-covers duplicate fs (skip_file f p) in
            let same : filter_done duplicate store (f ∷ fs) p
                ≡ filter_done duplicate store fs (skip_file f p) =
              ground (arith, e) in
            (
              ap (λ x. x.0.store) same ∙ st,
              ap (λ x. x.0.failed_files) same ∙ fl,
              λ s keep all. (
                keep (resume_key f) (skipped-IsDone duplicate store (resume_key f) p.store e),
                covers s keep (subst (λ x. All (IsDone store s) (map resume_key x.1)) same all),
              ),
            )
        | inr e ↦
            let (st, fl, covers) = filter_done-covers duplicate fs p in
            let same : filter_done duplicate store (f ∷ fs) p
                ≡ ((filter_done duplicate store fs p).0, f ∷ (filter_done duplicate store fs p).1) =
              ground (arith, e) in
            (
              ap (λ x. x.0.store) same ∙ st,
              ap (λ x. x.0.failed_files) same ∙ fl,
              λ s keep all.
                  let (one, rest) : All (IsDone store s)
                      (resume_key f ∷ map resume_key (filter_done duplicate store fs p).1) =
                    subst (λ x. All (IsDone store s) (map resume_key x.1)) same all in
                  (one, covers s keep rest),
            )
      ]

  pub pending_in-covers :
      (config : Config) (files : List AlbumFile) (p : Progress W S)
      → ((pending_in config (some store) files p).0.store ≡ p.store)
        × ((pending_in config (some store) files p).0.failed_files ≡ p.failed_files)
        × ((s : S)
            → ((key : ResumeKey) → IsDone store p.store key → IsDone store s key)
            → All (IsDone store s) (map resume_key (pending_in config (some store) files p).1)
            → All (IsDone store s) (map resume_key files))
  unfolding pending_in
  pending_in-covers config files p = elim (Bool-cases config.resume) [
    | inl e ↦
        let same : pending_in config (some store) files p
            ≡ filter_done config.duplicate store files p =
          ground (arith, e) in
        let (st, fl, covers) = filter_done-covers config.duplicate files p in
        (
          ap (λ x. x.0.store) same ∙ st,
          ap (λ x. x.0.failed_files) same ∙ fl,
          λ s keep all.
              covers s keep (subst (λ x. All (IsDone store s) (map resume_key x.1)) same all),
        )
    | inr e ↦
        let same : pending_in config (some store) files p ≡ (p, files) = ground (arith, e) in
        (
          ap (λ x. x.0.store) same,
          ap (λ x. x.0.failed_files) same,
          λ s keep all. subst (λ x. All (IsDone store s) (map resume_key x.1)) same all,
        )
  ]
