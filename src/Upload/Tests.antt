-- ===== src/Upload/Tests.antt =====
-- Tests of the upload pipeline.
use tgup.Prelude.{
  ℕ, ◌+◌, ◌≡◌, ◌≤◌, refl, Bool, true, false, not, ◌&&◌, List, [], ◌∷◌, ◌++◌, map, Option, none,
  some, ◌==◌, arith, All, if◌then◌else◌,
}
use tgup.Prelude.Text.{Text, codes, text_eq, to_lower, trim_space}
use tgup.Prelude.Int.{pos}
use tgup.Errors.{Error, image_process_failed, Result, ok, err, is_image_process_failed}
use tgup.Scan.Model as S
use tgup.Plan.Model as P
use tgup.Media.Model as M
use tgup.State.Store.{Table, select, upsert, is_done, mark_sent}
use tgup.State.Model.{same_key}
use tgup.Upload.Model.{
  AlbumFile, Config, Summary, ResolvedTarget, SendSingleRequest, SendResult, Services, Input,
  Progress,
}
use tgup.Upload.Send.{send_album_once, send_loop}
use tgup.Upload.Send.Retry.{send_twice, send_loop-returns}
use tgup.Upload.Send.Documents.{resends_as_document}
use tgup.Tg.Mapping.{Gotd, map_gotd_error}
use tgup.Upload.Run.{run, start, count_files}
use tgup.Upload.Album.{process_album}
use tgup.Upload.Accounting.{run-accounts}
use tgup.Upload.Resume.{IsDone}
use tgup.Upload.Resume.Stores.{all_keys}
use tgup.Upload.Resume.Rerun.{run-IsDone, rerun_sends_nothing}
use tgup.Upload.Resume.Sqlite.{sqlite_store, sqlite_store-laws}

-- The world is the log of the paths that were sent.
abbrev World : Type 0
World = List Text

abbrev reply : SendResult
reply = record { message_ids = 5 ∷ 6 ∷ []; group_id = codes "g"; messages = [] }

abbrev me : ResolvedTarget
me = record { kind = codes "me"; id = pos 1; raw = codes "me" }

-- A photo named "bad" is refused, and goes through as a document.
abbrev send_one : SendSingleRequest → World → World × Result SendResult
send_one r w =
    if text_eq r.path (codes "bad") && not r.force_document
    then (w, err image_process_failed)
    else (r.path ∷ w, ok reply)

abbrev services : Services World
services = record {
  resolve_target = λ t w. (w, ok me);
  send_single = send_one;
  send_album = λ r w. (map (λ m. m.path) r.items ++ w, ok reply);
  probe_video = none;
  extract_thumbnail = none;
  compress = λ path w. (w, ok (codes "", λ v. v));
  stat_size = λ path w. (w, ok 1);
  format_seconds = λ s. codes "0";
}

abbrev settings : Config
settings = record {
  target = codes "me";
  caption = codes "";
  parse_mode = codes "plain";
  concurrency = pos 2;
  strict_metadata = true;
  image_mode = codes "auto";
  video_thumbnail = codes "auto";
  resume = true;
  duplicate = codes "ask";
}

abbrev input : Input World Table
input = record {
  services = services;
  store = some (sqlite_store 30);
  config = settings;
  on_progress = false;
  on_event = false;
}

abbrev item : Text → S.Item
item path = record {
  path = path;
  src_root = codes "/m";
  parent_dir = codes "/m";
  size = 3;
  mtime_ns = pos 4;
  kind = S.Kind.image;
}

abbrev bad_album : P.Album
bad_album = record { label = codes "A"; items = item (codes "bad") ∷ [] }

abbrev albums : List P.Album
albums =
    bad_album ∷ record { label = codes "B"; items = item (codes "a") ∷ item (codes "b") ∷ [] } ∷ []

abbrev live : ℕ → Bool
live n = false

abbrev progress_of : Option (Progress World Table × Summary × Option Error) → Progress World Table
progress_of none = start [] []
progress_of (some (p, r, e)) = p

abbrev summary_in : Option (Progress World Table × Summary × Option Error) → Summary
summary_in none = record { total = 0; sent = 0; skipped = 0; failed = 0; canceled = true }
summary_in (some (p, r, e)) = r

abbrev first : Option (Progress World Table × Summary × Option Error)
first = run true input live albums [] []

first_run :
    (first ≡ some (progress_of first, summary_in first, none))
    × ((progress_of first).world ≡ codes "a" ∷ codes "b" ∷ codes "bad" ∷ [])
    × (summary_in first ≡ record { total = 3; sent = 3; skipped = 0; failed = 0; canceled = false })
unfolding run process_album is_done select text_eq to_lower trim_space send_album_once
    is_image_process_failed mark_sent upsert same_key
first_run = (refl, refl, refl)

abbrev bad_file : AlbumFile
bad_file = record {
  path = codes "bad";
  size = 3;
  mtime_ns = pos 4;
  kind = M.Kind.image;
  metadata = none;
  thumbnail = codes "";
}

send_loop-returns_example :
    send_loop 3 input (bad_file ∷ []) me (codes "auto") false 0 []
    ≡ some (codes "bad" ∷ [], ok reply)
unfolding send_twice text_eq send_album_once is_image_process_failed
send_loop-returns_example = send_loop-returns input (bad_file ∷ []) me (codes "auto") false 1 []

-- The library's answers: one error is a rejected photo.
abbrev library : Gotd ℕ
library = record {
  is_canceled = λ e. false;
  is_deadline = λ e. false;
  as_flood_wait = λ e. none;
  is_type = λ e name. e == 1 && text_eq name (codes "IMAGE_PROCESS_FAILED");
  as_rpc = λ e. none;
  is_conn_dead = λ e. false;
  is_net_error = λ e. false;
  is_eof = λ e. false;
  is_unexpected_eof = λ e. false;
  text = λ e. codes "rpc error";
}

resends_as_document_example :
    send_loop 2 input (bad_file ∷ []) me (codes "auto") false 0 []
    ≡ some (codes "bad" ∷ [], ok reply)
unfolding text_eq send_album_once map_gotd_error
resends_as_document_example =
    resends_as_document library input (bad_file ∷ []) me (codes "auto") false 0 [] [] 1 refl

run-accounts_example :
    (p : Progress World Table) × (r : Summary) × (e : Option Error) × (run true input live albums []
        []
      ≡ some (p, r, e))
    × (r.total ≡ 3)
    × (r.sent + r.failed + r.skipped ≤ r.total)
    × (r.canceled ≡ false → e ≡ none → r.sent + r.failed + r.skipped ≡ r.total)
unfolding count_files
run-accounts_example = run-accounts true input live albums [] []

run-IsDone_example : All (IsDone (sqlite_store 30) (progress_of first).store) (all_keys albums)
unfolding run text_eq process_album is_done select to_lower trim_space send_album_once
    is_image_process_failed mark_sent upsert same_key
run-IsDone_example =
    run-IsDone input (sqlite_store 30) (sqlite_store-laws 30) refl live albums [] []
      (progress_of first) (summary_in first) (omega arith) refl refl refl

rerun_sends_nothing_example :
    (p' : Progress World Table) × (r' : Summary) × (run true input live albums
        (codes "z" ∷ [])
        (progress_of first).store
      ≡ some (p', r', none))
    × (p'.world ≡ codes "z" ∷ [])
    × (p'.store ≡ (progress_of first).store)
    × (r'.skipped ≡ r'.total)
    × (r'.sent ≡ 0)
    × (r'.failed ≡ 0)
unfolding run text_eq process_album is_done select to_lower trim_space send_album_once
    is_image_process_failed mark_sent upsert same_key
rerun_sends_nothing_example =
    rerun_sends_nothing input (sqlite_store 30) (sqlite_store-laws 30) refl refl refl live albums []
      [] (progress_of first) (summary_in first) (omega arith) refl refl refl live (λ k. refl)
      (codes "z" ∷ []) (codes "z" ∷ []) me refl
