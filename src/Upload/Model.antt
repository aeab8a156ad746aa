-- ===== src/Upload/Model.antt =====
-- The data of the upload pipeline (internal/upload/types.go, duplicate.go, summary.go, and the
-- types of internal/tg/types.go and internal/tg/uploader.go that it exchanges with the transport).
use tgup.Prelude.{ℕ, Bool, List, Option, if◌then◌else◌, ◌==◌}
use tgup.Prelude.Text.{Text}
use tgup.Prelude.Int.{ℤ}
use tgup.Errors.{Error, Result}
use tgup.Scan.Model as S
use tgup.Media.Model as M
use tgup.Media.Model.{VideoMetadata, Seconds}
use tgup.State.Model.{ResumeKey, MarkSentInput, MarkFailedInput}

pub record AlbumFile : Type 0 where
  pub path : Text
  pub size : ℕ
  pub mtime_ns : ℤ
  pub kind : M.Kind
  pub metadata : Option VideoMetadata
  pub thumbnail : Text

pub record Config : Type 0 where
  pub target : Text
  pub caption : Text
  pub parse_mode : Text
  pub concurrency : ℤ
  pub strict_metadata : Bool
  pub image_mode : Text
  pub video_thumbnail : Text
  pub resume : Bool
  pub duplicate : Text

pub record Snapshot : Type 0 where
  pub sent_bytes : ℕ
  pub total_bytes : ℕ
  pub sent_files : ℕ
  pub total_files : ℕ
  pub sent_albums : ℕ
  pub total_albums : ℕ
  pub failed_albums : ℕ
  pub current_label : Text

pub record Event : Type 0 where
  pub kind : Text  -- `Type`
  pub album : Text
  pub files : ℕ
  pub error : Text

pub record Summary : Type 0 where
  pub total : ℕ
  pub sent : ℕ
  pub skipped : ℕ
  pub failed : ℕ
  pub canceled : Bool

unfoldable pub resume_key : AlbumFile → ResumeKey
resume_key f = record { path = f.path; size = f.size; mtime_ns = f.mtime_ns }

-- `toMediaKind`.
unfoldable pub to_media_kind : S.Kind → M.Kind
to_media_kind S.Kind.image = M.Kind.image
to_media_kind S.Kind.video = M.Kind.video
to_media_kind S.Kind.other = M.Kind.none

pub record ResolvedTarget : Type 0 where
  pub kind : Text
  pub id : ℤ
  pub raw : Text

pub record VideoMeta : Type 0 where
  pub duration : Seconds
  pub width : ℤ
  pub height : ℤ

pub record SendSingleRequest : Type 0 where
  pub target : ResolvedTarget
  pub path : Text
  pub caption : Text
  pub parse_mode : Text
  pub force_document : Bool
  pub supports_streaming : Bool
  pub thumbnail_path : Text
  pub video : Option VideoMeta

pub record AlbumMedia : Type 0 where
  pub path : Text
  pub caption : Text
  pub force_document : Bool
  pub supports_streaming : Bool
  pub thumbnail_path : Text
  pub video : Option VideoMeta

pub record SendAlbumRequest : Type 0 where
  pub target : ResolvedTarget
  pub items : List AlbumMedia
  pub parse_mode : Text

pub record SentMessage : Type 0 where
  pub id : ℕ
  pub media_kind : Text
  pub file_name : Text
  pub size : ℕ
  pub duration : Seconds
  pub width : ℤ
  pub height : ℤ
  pub supports_streaming : Bool

pub record SendResult : Type 0 where
  pub message_ids : List ℕ
  pub group_id : Text
  pub messages : List SentMessage

-- What the pipeline calls: the transport, the prober and the thumbnailer (each may be missing),
-- and the compression and the file sizes of `compressOversizedImages`, over a world `W`; and how package
-- fmt prints a float.
-- `compress` gives the empty path where no compression is required; it and `extract_thumbnail` also
-- give a clean-up function, the identity where the source's is missing.
pub record Services (W : Type 0) : Type 0 where
  pub resolve_target : Text → W → W × Result ResolvedTarget
  pub send_single : SendSingleRequest → W → W × Result SendResult
  pub send_album : SendAlbumRequest → W → W × Result SendResult
  pub probe_video : Option (Text → W → W × Result VideoMetadata)
  pub extract_thumbnail : Option (Text → W → W × Result (Text × (W → W)))
  pub compress : Text → W → W × Result (Text × (W → W))
  pub stat_size : Text → W → W × Result ℕ
  pub format_seconds : Seconds → Text

-- The part of `state.Store` that the pipeline calls, over its state `S`.
pub record Store (S : Type 0) : Type 0 where
  pub is_done : ResumeKey → S → Result Bool
  pub mark_sent : MarkSentInput → S → S × Option Error
  pub mark_failed : MarkFailedInput → S → S × Option Error

-- `Input`, without the plan.
pub record Input (W S : Type 0) : Type 0 where
  pub services : Services W
  pub store : Option (Store S)
  pub config : Config
  pub on_progress : Bool
  pub on_event : Bool

-- What a run has done so far: the worlds it acts on, its atomic counters, and the events and
-- snapshots that it emitted.
pub record Progress (W S : Type 0) : Type 0 where
  pub world : W
  pub store : S
  pub sent_files : ℕ
  pub failed_files : ℕ
  pub skipped_files : ℕ
  pub sent_bytes : ℕ
  pub sent_albums : ℕ
  pub failed_albums : ℕ
  pub events : List Event
  pub snapshots : List Snapshot

-- `SuccessRate`, as the two numbers of its quotient; 0 / 1 where there is nothing to send.
unfoldable pub success_rate : Summary → ℕ × ℕ
success_rate s = if s.total == 0 then (0, 1) else (s.sent, s.total)
