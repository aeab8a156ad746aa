-- ===== src/Config/Loads.antt =====
-- When the environment can be loaded (internal/config/env.go: `loadEnv`).
use mathlib.Core.Path.{◌∙◌}
use tgup.Prelude.{
  ◌≡◌, refl, Bool, true, false, ◌&&◌, Option, none, some, List, [], ◌∷◌, ◌++◌, Bool-cases, inl, inr,
}
use tgup.Prelude.Text.{Text, codes, text_eq, text_ltb, trim_space}
use tgup.Config.Env.{
  Environment, EnvError, invalid_bool, invalid_int, invalid_float, parsed_as, Loaded, loaded, bad,
  ◌>>=◌, parse_bool_like, read_as, conflict, validate_no_conflicting_keys, env_bool_any,
  env_int_any, env_float_any, load_telegram, load_scan, load_plan, load_upload, load_maintenance,
  load_mcp, load_env,
}

abbrev pub succeeds : {A : Type 0} → Loaded A → Bool
succeeds (loaded a) = true
succeeds (bad e) = false

-- A variable that is not text, by the kind of its value.
pub data Variable : Type 0 where
  bool_var int_var float_var : Text → Variable

abbrev pub is_some : {A : Type 0} → Option A → Bool
is_some none = false
is_some (some a) = true

-- A variable that is not set can be read; one that is set must have a value of its kind.
abbrev pub reads : {A : Type 0} → (Text → Option A) → Option Text → Bool
reads parse none = true
reads parse (some v) = is_some (parse v)

unfoldable pub readable : Environment → Variable → Bool
readable env (bool_var key) = reads parse_bool_like (env.lookup key)
readable env (int_var key) = reads (λ v. env.atoi (trim_space v)) (env.lookup key)
readable env (float_var key) = reads (λ v. env.parse_float (trim_space v)) (env.lookup key)

unfoldable pub all_readable : Environment → List Variable → Bool
unfolding readable
all_readable env [] = true
all_readable env (v ∷ vs) = readable env v && all_readable env vs

-- Two names of one setting are not both set, or to the same text.
abbrev pub agree : Option Text → Option Text → Bool
agree none b = true
agree (some a) none = true
agree (some a) (some b) = text_eq (trim_space a) (trim_space b)

abbrev pub telegram_variables : List Variable
telegram_variables = int_var (codes "TGUP_API_ID") ∷ []

abbrev pub scan_variables : List Variable
scan_variables = bool_var (codes "TGUP_RECURSIVE") ∷ bool_var (codes "TGUP_FOLLOW_SYMLINKS") ∷ []

abbrev pub plan_variables : List Variable
plan_variables = bool_var (codes "TGUP_REVERSE") ∷ int_var (codes "TGUP_ALBUM_MAX") ∷ []

abbrev pub upload_variables : List Variable
upload_variables =
    int_var (codes "TGUP_CONCURRENCY_ALBUM")
    ∷ int_var (codes "TGUP_THREADS")
    ∷ int_var (codes "TGUP_POOL_SIZE")
    ∷ bool_var (codes "TGUP_RESUME")
    ∷ bool_var (codes "TGUP_STRICT_METADATA")
    ∷ []

abbrev pub maintenance_variables : List Variable
maintenance_variables =
    bool_var (codes "TGUP_MAINTENANCE_ENABLED")
    ∷ float_var (codes "TGUP_MAINTENANCE_INTERVAL_HOURS")
    ∷ int_var (codes "TGUP_MAINTENANCE_RETENTION_SENT_DAYS")
    ∷ int_var (codes "TGUP_MAINTENANCE_RETENTION_FAILED_DAYS")
    ∷ int_var (codes "TGUP_MAINTENANCE_RETENTION_QUEUE_DAYS")
    ∷ int_var (codes "TGUP_MAINTENANCE_MAX_DB_MB")
    ∷ int_var (codes "TGUP_MAINTENANCE_MAX_UPLOAD_ROWS")
    ∷ bool_var (codes "TGUP_MAINTENANCE_FIRST_RUN_PREVIEW")
    ∷ float_var (codes "TGUP_MAINTENANCE_VACUUM_COOLDOWN_HOURS")
    ∷ int_var (codes "TGUP_MAINTENANCE_VACUUM_MIN_RECLAIM_MB")
    ∷ []

abbrev pub mcp_variables : List Variable
mcp_variables =
    bool_var (codes "TGUP_MCP_ENABLED")
    ∷ int_var (codes "TGUP_MCP_PORT")
    ∷ float_var (codes "TGUP_MCP_EVENT_RETENTION_HOURS")
    ∷ int_var (codes "TGUP_MCP_MAX_CONCURRENT_JOBS")
    ∷ bool_var (codes "TGUP_MCP_ENABLE_SSE")
    ∷ []

-- Every variable that is not text.
abbrev pub typed_variables : List Variable
typed_variables =
    telegram_variables
    ++ (scan_variables
        ++ (plan_variables
            ++ (upload_variables ++ (maintenance_variables ++ (mcp_variables ++ [])))))

parsed_as-succeeds :
    {A : Type 0} (invalid : Text → EnvError) (key : Text) (o : Option A)
    → succeeds (parsed_as invalid key o) ≡ is_some o
unfolding parsed_as
parsed_as-succeeds invalid key none = refl
parsed_as-succeeds invalid key (some a) = refl

read_as-succeeds :
    {A : Type 0} (invalid : Text → EnvError) (parse : Text → Option A) (key : Text)
    (o : Option Text)
    → succeeds (read_as invalid parse key o) ≡ reads parse o
unfolding read_as
read_as-succeeds invalid parse key none = refl
read_as-succeeds invalid parse key (some v) = parsed_as-succeeds invalid key (parse v)

conflict-succeeds :
    (key_a key_b : Text) (a b : Option Text) → succeeds (conflict key_a key_b a b) ≡ agree a b
unfolding conflict
conflict-succeeds key_a key_b none b = refl
conflict-succeeds key_a key_b (some a) none = refl
conflict-succeeds key_a key_b (some a) (some b) =
    elim (Bool-cases (text_eq (trim_space a) (trim_space b))) [
      | inl same ↦ rw same refl
      | inr differ ↦ rw differ (elim (Bool-cases (text_ltb key_b key_a)) [
        | inl less ↦ rw less refl
        | inr more ↦ rw more refl
      ])
    ]

bind-succeeds :
    {A B : Type 0} (m : Loaded A) (f : A → Loaded B) (b c : Bool)
    → succeeds m ≡ b
    → ((a : A) → succeeds (f a) ≡ c)
    → succeeds (m >>= f) ≡ (b && c)
bind-succeeds (loaded a) f b c e k = rw (← e) (k a)
bind-succeeds (bad x) f b c e k = rw (← e) refl

all_readable-append :
    (env : Environment) (vs ws : List Variable)
    → (all_readable env vs && all_readable env ws) ≡ all_readable env (vs ++ ws)
unfolding all_readable
all_readable-append env [] ws = refl
all_readable-append env (v ∷ vs) ws = elim (Bool-cases (readable env v)) [
  | inl fine ↦ rw fine (all_readable-append env vs ws)
  | inr wrong ↦ rw wrong refl
]

module _ (env : Environment) where
  variable-succeeds :
      {A B : Type 0} (v : Variable) (vs : List Variable) (m : Loaded A) (f : A → Loaded B)
      → succeeds m ≡ readable env v
      → ((a : A) → succeeds (f a) ≡ all_readable env vs)
      → succeeds (m >>= f) ≡ all_readable env (v ∷ vs)
  unfolding all_readable
  variable-succeeds v vs m f e k = bind-succeeds m f (readable env v) (all_readable env vs) e k

  group-succeeds :
      {A B : Type 0} (vs ws : List Variable) (m : Loaded A) (f : A → Loaded B)
      → succeeds m ≡ all_readable env vs
      → ((a : A) → succeeds (f a) ≡ all_readable env ws)
      → succeeds (m >>= f) ≡ all_readable env (vs ++ ws)
  group-succeeds vs ws m f e k =
      bind-succeeds m f (all_readable env vs) (all_readable env ws) e k
      ∙ all_readable-append env vs ws

  no_more : true ≡ all_readable env []
  unfolding all_readable
  no_more = refl

  bool-reads : (key : Text) → succeeds (env_bool_any env key) ≡ readable env (bool_var key)
  unfolding env_bool_any readable
  bool-reads key = read_as-succeeds invalid_bool _ key (env.lookup key)

  int-reads : (key : Text) → succeeds (env_int_any env key) ≡ readable env (int_var key)
  unfolding env_int_any readable
  int-reads key = read_as-succeeds invalid_int _ key (env.lookup key)

  float-reads : (key : Text) → succeeds (env_float_any env key) ≡ readable env (float_var key)
  unfolding env_float_any readable
  float-reads key = read_as-succeeds invalid_float _ key (env.lookup key)

  load_telegram-succeeds : succeeds (load_telegram env) ≡ all_readable env telegram_variables
  unfolding load_telegram
  load_telegram-succeeds = variable-succeeds _ _ _ _ (int-reads _) (λ x0. no_more)

  load_scan-succeeds : succeeds (load_scan env) ≡ all_readable env scan_variables
  unfolding load_scan
  load_scan-succeeds =
      variable-succeeds _ _ _ _ (bool-reads _)
        (λ x0. variable-succeeds _ _ _ _ (bool-reads _) (λ x1. no_more))

  load_plan-succeeds : succeeds (load_plan env) ≡ all_readable env plan_variables
  unfolding load_plan
  load_plan-succeeds =
      variable-succeeds _ _ _ _ (bool-reads _)
        (λ x0. variable-succeeds _ _ _ _ (int-reads _) (λ x1. no_more))

  load_upload-succeeds : succeeds (load_upload env) ≡ all_readable env upload_variables
  unfolding load_upload
  load_upload-succeeds = variable-succeeds _ _ _ _ (int-reads _) (λ x0.
      variable-succeeds _ _ _ _ (int-reads _) (λ x1. variable-succeeds _ _ _ _ (int-reads _) (λ x2.
        variable-succeeds _ _ _ _ (bool-reads _)
          (λ x3. variable-succeeds _ _ _ _ (bool-reads _) (λ x4. no_more)))))

  load_maintenance-succeeds :
      succeeds (load_maintenance env) ≡ all_readable env maintenance_variables
  unfolding load_maintenance
  load_maintenance-succeeds = variable-succeeds _ _ _ _ (bool-reads _) (λ x0.
      variable-succeeds _ _ _ _ (float-reads _) (λ x1.
        variable-succeeds _ _ _ _ (int-reads _) (λ x2.
          variable-succeeds _ _ _ _ (int-reads _) (λ x3.
            variable-succeeds _ _ _ _ (int-reads _) (λ x4.
              variable-succeeds _ _ _ _ (int-reads _) (λ x5.
                variable-succeeds _ _ _ _ (int-reads _) (λ x6.
                  variable-succeeds _ _ _ _ (bool-reads _) (λ x7.
                    variable-succeeds _ _ _ _ (float-reads _)
                      (λ x8. variable-succeeds _ _ _ _ (int-reads _) (λ x9. no_more))))))))))

  load_mcp-succeeds : succeeds (load_mcp env) ≡ all_readable env mcp_variables
  unfolding load_mcp
  load_mcp-succeeds = variable-succeeds _ _ _ _ (bool-reads _) (λ x0.
      variable-succeeds _ _ _ _ (int-reads _) (λ x1.
        variable-succeeds _ _ _ _ (float-reads _) (λ x2.
          variable-succeeds _ _ _ _ (int-reads _)
            (λ x3. variable-succeeds _ _ _ _ (bool-reads _) (λ x4. no_more)))))

  names-agree :
      {B : Type 0} (key_a key_b : Text) (f : Unit {0} → Loaded B) (c : Bool)
      → ((u : Unit {0}) → succeeds (f u) ≡ c)
      → succeeds (validate_no_conflicting_keys env key_a key_b >>= f)
        ≡ (agree (env.lookup key_a) (env.lookup key_b) && c)
  unfolding validate_no_conflicting_keys
  names-agree key_a key_b f c k =
      bind-succeeds (conflict key_a key_b (env.lookup key_a) (env.lookup key_b)) f
        (agree (env.lookup key_a) (env.lookup key_b)) c
        (conflict-succeeds key_a key_b (env.lookup key_a) (env.lookup key_b)) k

  -- The environment can be loaded exactly where the two names of the session path and those of the
  -- state path agree, and every variable of a truth value, a number or a number of hours that is set
  -- has a value of its kind.
  pub load_env-succeeds : succeeds (load_env env) ≡ (
      agree (env.lookup (codes "TGUP_SESSION")) (env.lookup (codes "TGUP_SESSION_PATH"))
      && (agree (env.lookup (codes "TGUP_STATE")) (env.lookup (codes "TGUP_STATE_PATH"))
          && all_readable env typed_variables))
  unfolding load_env
  load_env-succeeds = names-agree (codes "TGUP_SESSION") (codes "TGUP_SESSION_PATH") _ _ (λ session.
      names-agree (codes "TGUP_STATE") (codes "TGUP_STATE_PATH") _ _ (λ state.
        group-succeeds telegram_variables _ _ _ load_telegram-succeeds (λ telegram.
          group-succeeds scan_variables _ _ _ load_scan-succeeds (λ scan.
            group-succeeds plan_variables _ _ _ load_plan-succeeds (λ plan.
              group-succeeds upload_variables _ _ _ load_upload-succeeds (λ upload.
                group-succeeds maintenance_variables _ _ _ load_maintenance-succeeds (λ maintenance.
                  group-succeeds mcp_variables _ _ _ load_mcp-succeeds (λ mcp. no_more))))))))
