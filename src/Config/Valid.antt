-- ===== src/Config/Valid.antt =====
-- What checked settings promise (internal/config/validate.go and loader.go).
use tgup.Prelude.{
  ℕ, ◌≤◌, ◌≡◌, refl, ◌↔◌, ◌≢◌, ap, sym, Bool, true, not, ◌||◌, List, [], ◌∷◌, ◌++◌, length, ◌==◌,
  ==_iff, arith, All, Bool-cases, inl, inr, ◌⊎◌,
}
use tgup.Prelude.Text.{Text, codes, text_eq, text_eq_iff, to_lower, trim_space, has_prefix}
use tgup.Prelude.Int.{ℤ, pos, negsuc, ltb_ℤ, eq_ℤ}
use tgup.Errors.{ok}
use tgup.Config.Model.{Config, Overlay}
use tgup.Config.Validate.{
  ValidationError, Check, failures, telegram_checks, other_checks, one_of, validate, port_in_range,
  normalize_ext, normalize_extensions,
}
use tgup.Config.Merge.{Resolved, resolved, rejected, checked, merge, resolve_with_file_overlays}
use tgup.Config.Precedence.{Precedence, merge-Precedence}
use tgup.Upload.Steps.{is_skipped}
use mathlib.Core.Path.{subst}

-- A text is one of those in a list.
abbrev pub IsOneOf : Text → List Text → Type 0
IsOneOf value [] = ⊥
IsOneOf value (candidate ∷ allowed) = (value ≡ candidate) ⊎ IsOneOf value allowed

abbrev pub IsPositive : ℤ → Type 0
IsPositive value = (n : ℕ) × (value ≡ pos n) × (1 ≤ n)

abbrev pub IsPort : ℤ → Type 0
IsPort port = (n : ℕ) × (port ≡ pos n) × (1 ≤ n) × (n ≤ 65535)

-- Settings whose fields have the values that the program allows.
pub record IsValid (cfg : Config) : Type 0 where
  pub api_id : cfg.telegram.api_id ≢ pos 0
  pub api_hash : cfg.telegram.api_hash ≢ []
  pub src : cfg.scan.src ≢ []
  pub order :
      IsOneOf
        (to_lower cfg.plan.order)
        (codes "name" ∷ codes "mtime" ∷ codes "size" ∷ codes "random" ∷ [])
  pub album_max : IsPositive cfg.plan.album_max
  pub concurrency : IsPositive cfg.upload.concurrency_album
  pub parse_mode : IsOneOf (to_lower cfg.upload.parse_mode) (codes "plain" ∷ codes "md" ∷ [])
  pub image_mode :
      IsOneOf
        (to_lower cfg.upload.image_mode)
        (codes "auto" ∷ codes "photo" ∷ codes "document" ∷ codes "compress" ∷ [])
  pub thumbnail : trim_space cfg.upload.video_thumbnail ≢ []
  pub duplicate :
      IsOneOf (to_lower cfg.upload.duplicate) (codes "skip" ∷ codes "ask" ∷ codes "upload" ∷ [])
  pub port : cfg.mcp.enabled ≡ true → IsPort cfg.mcp.port

one_of_iff :
    (value : Text) (allowed : List Text) → (one_of value allowed ≡ true) ↔ IsOneOf value allowed
unfolding one_of
one_of_iff value [] = (λ e. cc, λ none_left. absurd none_left)
one_of_iff value (candidate ∷ allowed) = (
  λ e. elim (Bool-cases (text_eq value candidate)) [
    | inl same ↦ inl ((text_eq_iff value candidate).0 same)
    | inr other ↦ inr ((one_of_iff value allowed).0 (ground arith))
  ],
  λ h. elim h [
    | inl same ↦ rw ((text_eq_iff value candidate).1 same) refl
    | inr more ↦ ground (arith, (one_of_iff value allowed).1 more)
  ],
)

IsPositive-iff : (value : ℤ) → (ltb_ℤ (pos 0) value ≡ true) ↔ IsPositive value
IsPositive-iff (pos n) =
    (λ e. (n, refl, ground arith), λ (m, same, le). let e : n ≡ m = cc in ground arith)
IsPositive-iff (negsuc n) = (λ e. absurd (ground arith), λ (m, same, le). absurd (cc))

IsPort-iff : (port : ℤ) → (port_in_range port ≡ true) ↔ IsPort port
unfolding port_in_range
IsPort-iff (pos n) = (
  λ e. (n, refl, ground arith, ground arith),
  λ (m, same, le, top). let e : n ≡ m = cc in ground arith,
)
IsPort-iff (negsuc n) = (λ e. absurd (ground arith), λ (m, same, le, top). absurd (cc))

not_zero : (value : ℤ) → (not (eq_ℤ value (pos 0)) ≡ true) ↔ (value ≢ pos 0)
not_zero (pos n) = (
  λ h e. let z : n ≡ 0 = cc in absurd (ground arith),
  λ h. elim (Bool-cases (n == 0)) [
    | inl z ↦ absurd (h (ap pos ((==_iff n 0).0 z)))
    | inr other ↦ ground arith
  ],
)
not_zero (negsuc n) = (λ h e. absurd (cc), λ h. ground arith)

failures_iff : (cs : List Check) → (failures cs ≡ []) ↔ All (λ c. c.passes ≡ true) cs
unfolding failures
failures_iff [] = (λ h. tt, λ h. refl)
failures_iff (c ∷ cs) = (
  λ h. (ground (arith, h), (failures_iff cs).0 (ground (arith, h))),
  λ (a, b). ground (arith, a, (failures_iff cs).1 b),
)

not_empty : (t : Text) → (not (text_eq t []) ≡ true) ↔ (t ≢ [])
not_empty t = ground (arith, text_eq_iff t [])

some_src : (ts : List Text) → (not (length ts == 0) ≡ true) ↔ (ts ≢ [])
some_src [] = ground arith
some_src (t ∷ ts) = ground arith

needed :
    (enabled ok_port : Bool) → (not enabled || ok_port ≡ true) ↔ (enabled ≡ true → ok_port ≡ true)
needed enabled ok_port = ground arith

validate-only_if : (cfg : Config) → validate cfg ≡ [] → IsValid cfg
unfolding validate
validate-only_if cfg h =
    let (
      api_id,
      (
        api_hash,
        (
          src,
          (
            order,
            (
              album_max,
              (concurrency, (parse_mode, (image_mode, (thumbnail, (duplicate, (port, end)))))),
            ),
          ),
        ),
      ),
    ) =
      (failures_iff (telegram_checks cfg ++ other_checks cfg)).0 h in
    record {
      api_id = (not_zero cfg.telegram.api_id).0 api_id;
      api_hash = (not_empty cfg.telegram.api_hash).0 api_hash;
      src = (some_src cfg.scan.src).0 src;
      order = (one_of_iff _ _).0 order;
      album_max = (IsPositive-iff cfg.plan.album_max).0 album_max;
      concurrency = (IsPositive-iff cfg.upload.concurrency_album).0 concurrency;
      parse_mode = (one_of_iff _ _).0 parse_mode;
      image_mode = (one_of_iff _ _).0 image_mode;
      thumbnail = (not_empty (trim_space cfg.upload.video_thumbnail)).0 thumbnail;
      duplicate = (one_of_iff _ _).0 duplicate;
      port = λ on.
          (IsPort-iff cfg.mcp.port).0
            ((needed cfg.mcp.enabled (port_in_range cfg.mcp.port)).0 port on);
    }

validate-if : (cfg : Config) → IsValid cfg → validate cfg ≡ []
unfolding validate
validate-if cfg v = (failures_iff (telegram_checks cfg ++ other_checks cfg)).1 (
  (not_zero cfg.telegram.api_id).1 v.api_id,
  (
    (not_empty cfg.telegram.api_hash).1 v.api_hash,
    (
      (some_src cfg.scan.src).1 v.src,
      (
        (one_of_iff _ _).1 v.order,
        (
          (IsPositive-iff cfg.plan.album_max).1 v.album_max,
          (
            (IsPositive-iff cfg.upload.concurrency_album).1 v.concurrency,
            (
              (one_of_iff _ _).1 v.parse_mode,
              (
                (one_of_iff _ _).1 v.image_mode,
                (
                  (not_empty (trim_space cfg.upload.video_thumbnail)).1 v.thumbnail,
                  (
                    (one_of_iff _ _).1 v.duplicate,
                    (
                      (needed cfg.mcp.enabled (port_in_range cfg.mcp.port)).1
                          (λ on. (IsPort-iff cfg.mcp.port).1 (v.port on)),
                      tt,
                    ),
                  ),
                ),
              ),
            ),
          ),
        ),
      ),
    ),
  ),
)

-- `Validate` finds no error exactly in settings with an API id other than 0, an API hash, a source,
-- an order, a parse mode, an image mode and a duplicate policy that each are one of the allowed ones
-- in any case of letters, an album size and a number of albums at once above 0, a thumbnail setting
-- that is not blank, and, where the server is enabled, a port from 1 to 65535.
pub validate-IsValid : (cfg : Config) → (validate cfg ≡ []) ↔ IsValid cfg
validate-IsValid cfg = (validate-only_if cfg, validate-if cfg)

config_of : Config → Resolved → Config
config_of cfg (resolved c) = c
config_of cfg (rejected es) = cfg

checked-resolved :
    (cfg cfg' : Config) (es : List ValidationError)
    → checked cfg es ≡ resolved cfg'
    → (cfg ≡ cfg') × (es ≡ [])
unfolding checked config_of
checked-resolved cfg cfg' [] h = (ap (λ r. config_of cfg r) h, refl)
checked-resolved cfg cfg' (e ∷ es) h = ground arith

-- Settings that are resolved are valid, and every one of them comes from the command line, else from
-- the environment, else from the last file that sets it, else from the defaults.
pub resolve-IsValid :
    (defaults : Config) (files : List Overlay) (env cli : Overlay) (cfg : Config)
    → resolve_with_file_overlays defaults files env cli ≡ resolved cfg
    → IsValid cfg
      × (cfg ≡ merge defaults (files ++ env ∷ cli ∷ []))
      × Precedence defaults (files ++ env ∷ cli ∷ [])
unfolding resolve_with_file_overlays
resolve-IsValid defaults files env cli cfg h =
    let merged = merge defaults (files ++ env ∷ cli ∷ []) in
    let (same, none_left) = checked-resolved merged cfg (validate merged) h in
    (
      subst (λ c. IsValid c) same ((validate-IsValid merged).0 none_left),
      sym same,
      merge-Precedence defaults (files ++ env ∷ cli ∷ []),
    )

-- The check of the duplicate policy does not see case, and the pipeline does: a policy that reads
-- "upload" in lower case alone passes the check, and yet leaves out the files that are done.
pub mixed_case_upload_skips :
    (cfg : Config)
    → IsValid cfg
    → (policy : Text) → to_lower policy ≡ codes "upload"
    → policy ≢ codes "upload"
    → (validate (record cfg { upload = record cfg.upload { duplicate = policy } }) ≡ [])
      × (is_skipped policy (ok true) ≡ true)
unfolding is_skipped one_of
mixed_case_upload_skips cfg v policy lower mixed = (
  validate-if (record cfg { upload = record cfg.upload { duplicate = policy } })
      (record {
        api_id = v.api_id;
        api_hash = v.api_hash;
        src = v.src;
        order = v.order;
        album_max = v.album_max;
        concurrency = v.concurrency;
        parse_mode = v.parse_mode;
        image_mode = v.image_mode;
        thumbnail = v.thumbnail;
        duplicate = inr (inr (inl lower));
        port = v.port;
      }),
  ground (arith, mixed, text_eq_iff policy (codes "upload")),
)

normalize_ext-dotted :
    (ext : Text) → (normalize_ext ext ≡ []) ⊎ (has_prefix (normalize_ext ext) (codes ".") ≡ true)
unfolding normalize_ext has_prefix
normalize_ext-dotted ext = ground arith

-- Every extension that normalizing leaves begins with a dot.
pub normalize_extensions-dotted :
    (exts : List Text) → All (λ e. has_prefix e (codes ".") ≡ true) (normalize_extensions exts)
unfolding normalize_extensions
normalize_extensions-dotted [] = tt
normalize_extensions-dotted (ext ∷ exts) =
    elim (Bool-cases (text_eq (normalize_ext ext) (codes ""))) [
      | inl e ↦ rw e (normalize_extensions-dotted exts)
      | inr e ↦ rw e (
        ground (arith, normalize_ext-dotted ext, text_eq_iff (normalize_ext ext) (codes "")),
        normalize_extensions-dotted exts,
      )
    ]
