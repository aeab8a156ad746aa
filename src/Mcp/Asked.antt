-- ===== src/Mcp/Asked.antt =====
-- The settings that a client asks for (internal/mcp/bridge.go: `specToOverlay`) decide over all
-- others.
use tgup.Prelude.{◌≡◌, ◌≢◌, refl, ap, ◌∙◌, Bool, Option, none, some, List, [], ◌∷◌, ◌++◌, map}
use tgup.Prelude.Int.{ℤ}
use tgup.Config.Model.{Config, Overlay}
use tgup.Config.Env.{Environment, Loaded, loaded, bad, load_env}
use tgup.Config.Validate.{normalize_extensions}
use tgup.Config.Merge.{Resolved, resolved, rejected, normalized, set_or, merge, default}
use tgup.Config.Precedence.{merge-Precedence, last_set}
use tgup.Config.Valid.{resolve-IsValid}
use tgup.Config.Resolve.{config_of, with_env, resolve}
use tgup.Scan.Filter.{is_empty}
use tgup.Mcp.Bridge.{RunSpec, if_any, spec_to_overlay}

-- Settings in which everything that a client asks for is as it asks.
pub record IsAsked (spec : RunSpec) (cfg : Config) : Type 0 where
  pub src : spec.src ≢ [] → cfg.scan.src ≡ spec.src
  pub recursive : (v : Bool) → spec.recursive ≡ some v → cfg.scan.recursive ≡ v
  pub follow_symlinks : (v : Bool) → spec.follow_symlinks ≡ some v → cfg.scan.follow_symlinks ≡ v
  pub include_ext :
      spec.include_ext ≢ [] → cfg.scan.include_ext ≡ normalize_extensions spec.include_ext
  pub exclude_ext :
      spec.exclude_ext ≢ [] → cfg.scan.exclude_ext ≡ normalize_extensions spec.exclude_ext
  pub order : spec.order ≢ [] → cfg.plan.order ≡ spec.order
  pub reverse : (v : Bool) → spec.reverse ≡ some v → cfg.plan.reverse ≡ v
  pub album_max : (v : ℤ) → spec.album_max ≡ some v → cfg.plan.album_max ≡ v
  pub target : spec.target ≢ [] → cfg.upload.target ≡ spec.target
  pub caption : spec.caption ≢ [] → cfg.upload.caption ≡ spec.caption
  pub parse_mode : spec.parse_mode ≢ [] → cfg.upload.parse_mode ≡ spec.parse_mode
  pub concurrency : (v : ℤ) → spec.concurrency ≡ some v → cfg.upload.concurrency_album ≡ v
  pub resume : (v : Bool) → spec.resume ≡ some v → cfg.upload.resume ≡ v
  pub strict_metadata : (v : Bool) → spec.strict_metadata ≡ some v → cfg.upload.strict_metadata ≡ v
  pub image_mode : spec.image_mode ≢ [] → cfg.upload.image_mode ≡ spec.image_mode
  pub video_thumbnail :
      spec.video_thumbnail ≢ [] → cfg.upload.video_thumbnail ≡ spec.video_thumbnail
  pub duplicate : spec.duplicate ≢ [] → cfg.upload.duplicate ≡ spec.duplicate

last_set-last {ℓ} :
    {A : Type ℓ} (set_by : Overlay → Option A) (files : List Overlay) (env cli : Overlay) (a v : A)
    → set_by cli ≡ some v
    → last_set (map set_by (files ++ env ∷ cli ∷ [])) a ≡ v
unfolding last_set set_or
last_set-last set_by [] env cli a v e = rw e refl
last_set-last set_by (file ∷ files) env cli a v e =
    last_set-last set_by files env cli (set_or (set_by file) a) v e

if_any-some : {A : Type 0} (xs : List A) → xs ≢ [] → if_any xs ≡ some xs
unfolding if_any is_empty
if_any-some [] e = absurd (e refl)
if_any-some (x ∷ xs) e = refl

resolved-IsAsked :
    (spec : RunSpec) (files : List Overlay) (env : Overlay) (cfg : Config)
    → cfg ≡ merge default (files ++ env ∷ spec_to_overlay spec ∷ [])
    → IsAsked spec cfg
unfolding spec_to_overlay normalized
resolved-IsAsked spec files env cfg m =
    let p = merge-Precedence default (files ++ env ∷ spec_to_overlay spec ∷ []) in
    record {
      src = λ e.
          taken _ cfg.scan.src spec.src (λ ov. ov.scan.src) (ap (λ x. x.scan.src) m ∙ p.scan_src)
            (if_any-some spec.src e);
      recursive = λ v e.
          taken _ cfg.scan.recursive v (λ ov. ov.scan.recursive)
            (ap (λ x. x.scan.recursive) m ∙ p.scan_recursive) e;
      follow_symlinks = λ v e.
          taken _ cfg.scan.follow_symlinks v (λ ov. ov.scan.follow_symlinks)
            (ap (λ x. x.scan.follow_symlinks) m ∙ p.scan_follow_symlinks) e;
      include_ext = λ e.
          taken _ cfg.scan.include_ext (normalize_extensions spec.include_ext)
            (λ ov. normalized ov.scan.include_ext)
            (ap (λ x. x.scan.include_ext) m ∙ p.scan_include_ext)
            (ap normalized (if_any-some spec.include_ext e));
      exclude_ext = λ e.
          taken _ cfg.scan.exclude_ext (normalize_extensions spec.exclude_ext)
            (λ ov. normalized ov.scan.exclude_ext)
            (ap (λ x. x.scan.exclude_ext) m ∙ p.scan_exclude_ext)
            (ap normalized (if_any-some spec.exclude_ext e));
      order = λ e.
          taken _ cfg.plan.order spec.order (λ ov. ov.plan.order)
            (ap (λ x. x.plan.order) m ∙ p.plan_order) (if_any-some spec.order e);
      reverse = λ v e.
          taken _ cfg.plan.reverse v (λ ov. ov.plan.reverse)
            (ap (λ x. x.plan.reverse) m ∙ p.plan_reverse) e;
      album_max = λ v e.
          taken _ cfg.plan.album_max v (λ ov. ov.plan.album_max)
            (ap (λ x. x.plan.album_max) m ∙ p.plan_album_max) e;
      target = λ e.
          taken _ cfg.upload.target spec.target (λ ov. ov.upload.target)
            (ap (λ x. x.upload.target) m ∙ p.upload_target) (if_any-some spec.target e);
      caption = λ e.
          taken _ cfg.upload.caption spec.caption (λ ov. ov.upload.caption)
            (ap (λ x. x.upload.caption) m ∙ p.upload_caption) (if_any-some spec.caption e);
      parse_mode = λ e.
          taken _ cfg.upload.parse_mode spec.parse_mode (λ ov. ov.upload.parse_mode)
            (ap (λ x. x.upload.parse_mode) m ∙ p.upload_parse_mode) (if_any-some spec.parse_mode e);
      concurrency = λ v e.
          taken _ cfg.upload.concurrency_album v (λ ov. ov.upload.concurrency_album)
            (ap (λ x. x.upload.concurrency_album) m ∙ p.upload_concurrency_album) e;
      resume = λ v e.
          taken _ cfg.upload.resume v (λ ov. ov.upload.resume)
            (ap (λ x. x.upload.resume) m ∙ p.upload_resume) e;
      strict_metadata = λ v e.
          taken _ cfg.upload.strict_metadata v (λ ov. ov.upload.strict_metadata)
            (ap (λ x. x.upload.strict_metadata) m ∙ p.upload_strict_metadata) e;
      image_mode = λ e.
          taken _ cfg.upload.image_mode spec.image_mode (λ ov. ov.upload.image_mode)
            (ap (λ x. x.upload.image_mode) m ∙ p.upload_image_mode) (if_any-some spec.image_mode e);
      video_thumbnail = λ e.
          taken _ cfg.upload.video_thumbnail spec.video_thumbnail (λ ov. ov.upload.video_thumbnail)
            (ap (λ x. x.upload.video_thumbnail) m ∙ p.upload_video_thumbnail)
            (if_any-some spec.video_thumbnail e);
      duplicate = λ e.
          taken _ cfg.upload.duplicate spec.duplicate (λ ov. ov.upload.duplicate)
            (ap (λ x. x.upload.duplicate) m ∙ p.upload_duplicate) (if_any-some spec.duplicate e);
    }
  where
    taken :
        {A : Type 0} (a x v : A) (set_by : Overlay → Option A)
        → x ≡ last_set (map set_by (files ++ env ∷ spec_to_overlay spec ∷ [])) a
        → set_by (spec_to_overlay spec) ≡ some v
        → x ≡ v
    taken a x v set_by e s = e ∙ last_set-last set_by files env (spec_to_overlay spec) a v s

config_of-resolved : (r : Resolved) (cfg : Config) → config_of r ≡ some cfg → r ≡ resolved cfg
unfolding config_of
config_of-resolved (resolved c) cfg h = cc
config_of-resolved (rejected es) cfg h = absurd (cc)

with_env-IsAsked :
    (files : List Overlay) (env : Loaded Overlay) (spec : RunSpec) (cfg : Config)
    → with_env files env (spec_to_overlay spec) ≡ some cfg
    → IsAsked spec cfg
unfolding with_env
with_env-IsAsked files (bad e) spec cfg h = absurd (cc)
with_env-IsAsked files (loaded env) spec cfg h =
    let (valid, merged, order) =
      resolve-IsValid default files env (spec_to_overlay spec) cfg (config_of-resolved _ cfg h) in
    resolved-IsAsked spec files env cfg merged

-- Settings that resolve for a client are as it asks.
pub resolve-IsAsked :
    (files : Option (List Overlay)) (env : Environment) (spec : RunSpec) (cfg : Config)
    → resolve files env (spec_to_overlay spec) ≡ some cfg
    → IsAsked spec cfg
unfolding resolve
resolve-IsAsked none env spec cfg h = absurd (cc)
resolve-IsAsked (some files) env spec cfg h = with_env-IsAsked files (load_env env) spec cfg h
