-- ===== src/Upload/Checks.antt =====
-- The checks before and after an album is sent (internal/upload/precheck.go and postcheck.go).
use tgup.Prelude.{
  ℕ, Bool, true, false, not, ◌&&◌, ◌||◌, List, [], ◌∷◌, ◌++◌, length, Option, none, some, ltb, ◌==◌,
  if◌then◌else◌,
}
use tgup.Prelude.Text.{Text, codes, text_eq, decimal, decimal_ℤ}
use tgup.Prelude.Int.{pos, ltb_ℤ}
use tgup.Errors.{Result, ok, err, error_text}
use tgup.Media.Model as M
use tgup.Media.Model.{VideoMetadata, Seconds, nan, infinite, micros, violation_reason}
use tgup.Upload.Model.{AlbumFile, SentMessage, SendResult}

pub record FileViolation : Type 0 where
  pub path : Text
  pub reason : Text

pub record PrecheckResult : Type 0 where
  pub violations : List FileViolation
  pub warnings : List Text

unfoldable pub has_violations : PrecheckResult → Bool
has_violations r = ltb 0 (length r.violations)

unfoldable pub is_video : AlbumFile → Bool
is_video f = elim f.kind [ M.Kind.video ↦ true | _ ↦ false ]

unfoldable pub with_warning : Text → PrecheckResult → PrecheckResult
with_warning w r = record r { warnings = w ∷ r.warnings }

unfoldable pub with_violation : Text → Text → PrecheckResult → PrecheckResult
with_violation path reason r =
    if text_eq reason (codes "")
    then r
    else record r { violations = record { path = path; reason = reason } ∷ r.violations }

abbrev pub no_findings : PrecheckResult
no_findings = record { violations = []; warnings = [] }

unfoldable pub warn_all : List AlbumFile → PrecheckResult
unfolding is_video with_warning
warn_all [] = no_findings
warn_all (f ∷ fs) =
    let rest = warn_all fs in
    if is_video f then with_warning (f.path ++ codes ": metadata prober unavailable") rest else rest

-- One video and what the prober answers: the file with its metadata, and what is found.
unfoldable pub probed :
    AlbumFile
    → Result VideoMetadata
    → List AlbumFile × PrecheckResult
    → List AlbumFile × PrecheckResult
unfolding with_warning with_violation
probed f (err e) (fs, r) = (f ∷ fs, with_warning (f.path ++ codes ": " ++ error_text e) r)
probed f (ok m) (fs, r) =
    (record f { metadata = some m } ∷ fs, with_violation f.path (violation_reason m) r)

module _ {W : Type 0} where
  unfoldable pub probe_all :
      (Text → W → W × Result VideoMetadata)
      → List AlbumFile
      → W
      → W × List AlbumFile × PrecheckResult
  unfolding is_video probed
  probe_all probe [] w = (w, [], no_findings)
  probe_all probe (f ∷ fs) w = elim (is_video f) [
    | false ↦ let (w', fs', r) = probe_all probe fs w in (w', f ∷ fs', r)
    | true ↦
        let (w1, answer) = probe f.path w in
        let (w2, fs', r) = probe_all probe fs w1 in
        let (files, found) = probed f answer (fs', r) in (w2, files, found)
  ]

  -- `PrecheckAlbum`, which writes the metadata into the files.
  unfoldable pub precheck_album :
      Option (Text → W → W × Result VideoMetadata)
      → List AlbumFile
      → W
      → W × List AlbumFile × PrecheckResult
  unfolding warn_all probe_all
  precheck_album none files w = (w, files, warn_all files)
  precheck_album (some probe) files w = probe_all probe files w

-- `ValidateDuplicatePolicy`: the values that it accepts.
unfoldable pub is_duplicate_policy : Text → Bool
is_duplicate_policy p =
    text_eq p (codes "skip") || text_eq p (codes "ask") || text_eq p (codes "upload")

pub record PostcheckResult : Type 0 where
  pub ok_result : Bool
  pub issues : List Text

unfoldable pub is_positive : Seconds → Bool
is_positive nan = true
is_positive infinite = true
is_positive (micros d) = ltb_ℤ (pos 0) d

abbrev if_issue : Bool → Text → List Text
if_issue b issue = if b then issue ∷ [] else []

-- The issues of one message of a video. `duration <= 0` is false of a float that is no number.
unfoldable pub message_issues : (Seconds → Text) → SentMessage → List Text
unfolding is_positive
message_issues show msg =
    let prefix = codes "msg " ++ decimal msg.id in
    if text_eq msg.media_kind (codes "video")
    then if_issue (not (is_positive msg.duration))
        (prefix ++ codes ": video duration=" ++ show msg.duration)
      ++ if_issue (ltb_ℤ msg.width (pos 2) || ltb_ℤ msg.height (pos 2)) (
          prefix
          ++ codes ": video dimensions="
          ++ decimal_ℤ msg.width
          ++ codes "x"
          ++ decimal_ℤ msg.height)
      ++ if_issue (not msg.supports_streaming) (prefix ++ codes ": supports_streaming=false")
    else []

unfoldable pub all_issues : (Seconds → Text) → List SentMessage → List Text
unfolding message_issues
all_issues show [] = []
all_issues show (msg ∷ msgs) = message_issues show msg ++ all_issues show msgs

unfoldable pub actual_count : SendResult → ℕ
actual_count sent =
    if length sent.messages == 0 && ltb 0 (length sent.message_ids)
    then length sent.message_ids
    else length sent.messages

-- `PostcheckMessages`.
unfoldable pub postcheck_messages : (Seconds → Text) → SendResult → ℕ → PostcheckResult
unfolding actual_count all_issues
postcheck_messages show sent expected =
    let count_issues = if_issue (not (actual_count sent == expected)) (
      codes "message count mismatch: expected "
      ++ decimal expected
      ++ codes ", got "
      ++ decimal (actual_count sent)) in
    let issues = count_issues ++ all_issues show sent.messages in
    record { ok_result = length issues == 0; issues = issues }
