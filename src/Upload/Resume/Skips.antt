-- ===== src/Upload/Resume/Skips.antt =====
-- Albums whose files are all done (internal/upload/run.go: `processAlbum` and `Run`).
use tgup.Prelude.{
  ℕ, suc, ◌+◌, ◌≡◌, refl, sym, ap, ◌∙◌, Bool, true, false, List, [], ◌∷◌, map, length, length-map,
  some, arith,
}
use tgup.Prelude.Text.{Text, codes, text_eq}
use tgup.Plan.Model as P
use tgup.Upload.Model.{AlbumFile, Event, ResolvedTarget, Store, Input, Progress, resume_key}
use tgup.Upload.Send.{emit_event}
use tgup.Upload.Steps.{
  Totals, to_album_file, event_of, emit_progress, is_skipped, skip_file, filter_done, pending_files,
}
use tgup.Upload.Album.{done_empty, process_pending, process_album}
use tgup.Upload.Ledger.{Counts, counts}
use tgup.Upload.Steps.{pending_in}
use tgup.Upload.Run.{work, count_files}
use tgup.Prelude.{All-split, All}
use tgup.Upload.Resume.{IsDone}
use mathlib.Core.Path.{subst}
use tgup.Upload.Model.{Config}
use tgup.Upload.Resume.Stores.{album_keys, all_keys}

-- The state of a run but for the emitted events and snapshots.
pub record Standing (W S : Type 0) : Type 0 where
  pub world : W
  pub counts_of : Counts
  pub store_of : S

abbrev pub standing : {W S : Type 0} → Progress W S → Standing W S
standing p = record { world = p.world; counts_of = counts p; store_of = p.store }

abbrev pub after_skips : {W S : Type 0} → ℕ → ℕ → Standing W S → Standing W S
after_skips n albums x = record x {
  counts_of = record x.counts_of {
    skipped = x.counts_of.skipped + n;
    sent_albums = x.counts_of.sent_albums + albums;
  };
}

abbrev one_more_album : {W S : Type 0} → Standing W S → Standing W S
one_more_album x = record x {
  counts_of = record x.counts_of { sent_albums = x.counts_of.sent_albums + 1 };
}

module _ {W S : Type 0} where
  standing-emit_event :
      (inp : Input W S) (e : Event) (p : Progress W S) → standing (emit_event inp e p) ≡ standing p
  unfolding emit_event
  standing-emit_event inp e p = ground arith

  standing-emit_progress :
      (inp : Input W S) (totals : Totals) (label : Text) (p : Progress W S)
      → standing (emit_progress inp totals label p) ≡ standing p
  unfolding emit_progress
  standing-emit_progress inp totals label p = ground arith

  filter_done-skips :
      (store : Store S) (duplicate : Text) (files : List AlbumFile) (p : Progress W S)
      → text_eq duplicate (codes "upload") ≡ false
      → All (IsDone store p.store) (map resume_key files)
      → ((filter_done duplicate store files p).1 ≡ [])
        × (standing (filter_done duplicate store files p).0
            ≡ after_skips (length files) 0 (standing p))
  unfolding filter_done is_skipped
  filter_done-skips store duplicate [] p other h = (refl, ground arith)
  filter_done-skips store duplicate (f ∷ fs) p other (one, rest) =
      let (none_left, same) = filter_done-skips store duplicate fs (skip_file f p) other rest in
      (ground (arith, one, other, none_left), ground (arith, one, other, same))

  pending_in-skips :
      (store : Store S) (config : Config) (files : List AlbumFile) (p : Progress W S)
      → config.resume ≡ true
      → text_eq config.duplicate (codes "upload") ≡ false
      → All (IsDone store p.store) (map resume_key files)
      → ((pending_in config (some store) files p).1 ≡ [])
        × (standing (pending_in config (some store) files p).0
            ≡ after_skips (length files) 0 (standing p))
  unfolding pending_in
  pending_in-skips store config files p resume other h =
      let (none_left, same) = filter_done-skips store config.duplicate files p other h in
      (ground (arith, resume, none_left), ground (arith, resume, same))

module _ {W S : Type 0} (inp : Input W S) (store : Store S) (has_store : inp.store ≡ some store)
    (resumes : inp.config.resume ≡ true)
    (skips : text_eq inp.config.duplicate (codes "upload") ≡ false) where
  -- An album whose files are all done is skipped: nothing is sent, probed or marked.
  process_album-skips :
      (totals : Totals) (target : ResolvedTarget) (album : P.Album) (p : Progress W S)
      → All (IsDone store p.store) (album_keys album)
      → (p' : Progress W S) × (process_album inp totals target album p ≡ some p')
        × (standing p' ≡ after_skips (length album.items) 1 (standing p))
  unfolding process_album pending_files album_keys done_empty process_pending
  process_album-skips totals target album p h =
      let files = map to_album_file album.items in
      let begun =
        emit_event inp (event_of (codes "upload.album.start") album.label (length files) (codes ""))
          p in
      let started = emit_progress inp totals album.label begun in
      let same : standing started ≡ standing p =
        standing-emit_progress inp totals album.label begun ∙ standing-emit_event inp _ p in
      let left = pending_in inp.config (some store) files started in
      let (none_left, later) = pending_in-skips store inp.config files started resumes skips (
        subst (λ s. All (IsDone store s) (map resume_key files)) (sym (ap (λ x. x.store_of) same))
          h) in
      (
        done_empty inp album.label left.0,
        ground (arith, has_store, none_left),
        standing-emit_event inp (event_of (codes "upload.album.done") album.label 0 (codes ""))
              (record left.0 { sent_albums = left.0.sent_albums + 1 })
            ∙ ap one_more_album (later ∙ ap (after_skips (length files) 0) same)
            ∙ ground (arith, length-map to_album_file album.items),
      )

  pub work-skips :
      (totals : Totals) (target : ResolvedTarget) (canceled : ℕ → Bool) (n : ℕ)
      (albums : List P.Album) (p : Progress W S)
      → ((k : ℕ) → canceled k ≡ false)
      → All (IsDone store p.store) (all_keys albums)
      → (p' : Progress W S) × (work inp totals target canceled n albums p ≡ some (p', false))
        × (standing p' ≡ after_skips (count_files albums) (length albums) (standing p))
  unfolding work all_keys count_files
  work-skips totals target canceled n [] p live h = (p, ground (arith, live n), ground arith)
  work-skips totals target canceled n (a ∷ albums) p live h =
      let (one, rest) = All-split (IsDone store p.store) (album_keys a) (all_keys albums) h in
      let (p1, eq1, s1) = process_album-skips totals target a p one in
      let (p2, eq2, s2) = work-skips totals target canceled (suc n) albums p1 live (
        subst (λ s. All (IsDone store s) (all_keys albums)) (sym (ap (λ x. x.store_of) s1)) rest) in
      (
        p2,
        ground (arith, live n, eq1, eq2),
        s2 ∙ ap (after_skips (count_files albums) (length albums)) s1 ∙ ground arith,
      )
