-- ===== src/Tg/Middleware.antt =====
-- The middlewares that repeat a call (internal/tg/middleware.go: the flood-wait and the retry
-- middleware). The library gotd, the context and the clock are a record of functions on a world.
use tgup.Prelude.{
  ℕ, zero, suc, Bool, true, false, not, ◌&&◌, ◌||◌, List, [], ◌∷◌, Option, none, some,
  if◌then◌else◌,
}
use tgup.Prelude.Text.{Text, codes, text_eq}
use tgup.Prelude.Int.{ℤ, pos, ltb_ℤ}

-- What the middlewares read of an RPC error.
pub record RpcError : Type 0 where
  pub code : ℤ
  pub kind : Text  -- `Type`

-- `invoke` is `next.Invoke`, `as_flood_wait` and `as_rpc` are those of package tgerr, `canceled` says
-- whether `ctx.Err()` is set, and `sleep` waits for a time in nanoseconds, or gives the context's
-- error if that ends first.
pub record Api (W E : Type 0) : Type 0 where
  pub invoke : W → W × Option E
  pub as_flood_wait : E → Option ℤ
  pub as_rpc : E → Option RpcError
  pub canceled : W → Bool
  pub sleep : ℤ → W → W × Option E

abbrev pub transient_types : List Text
transient_types =
    codes "Timedout"
    ∷ codes "RPC_CALL_FAIL"
    ∷ codes "RPC_MCGET_FAIL"
    ∷ codes "WORKER_BUSY_TOO_LONG_RETRY"
    ∷ codes "No workers running"
    ∷ codes "PHOTO_SAVE_FILE_INVALID"
    ∷ []

unfoldable pub is_one_of : Text → List Text → Bool
is_one_of kind [] = false
is_one_of kind (k ∷ ks) = text_eq kind k || is_one_of kind ks

unfoldable pub is_transient : Option RpcError → Bool
unfolding is_one_of
is_transient none = false
is_transient (some e) = not (ltb_ℤ e.code (pos 500)) || is_one_of e.kind transient_types

-- `if d <= 0 { d = time.Second }`.
unfoldable pub wait_of : ℤ → ℤ
wait_of d = if ltb_ℤ (pos 0) d then d else pos 1000000000

-- Whether the flood-wait middleware gives up on an attempt, before it waits.
unfoldable pub gives_up : ℕ → ℤ → ℕ → ℤ → Bool
unfolding wait_of
gives_up max_retries max_wait attempt d =
    not (ltb_ℤ (pos attempt) (pos max_retries))
    || ltb_ℤ (pos 0) max_wait && ltb_ℤ max_wait (wait_of d)

module _ {W E : Type 0} (api : Api W E) where
  -- The loop of the flood-wait middleware; `none` where the fuel runs out.
  unfoldable pub flood_wait_loop : ℕ → ℤ → ℕ → ℕ → W → Option (W × Option E)
  unfolding gives_up wait_of
  flood_wait_loop max_retries max_wait zero attempt w = none
  flood_wait_loop max_retries max_wait (suc fuel) attempt w =
      let (w1, answer) = api.invoke w in
      elim answer [
        | none ↦ some (w1, none)
        | some e ↦ elim (api.as_flood_wait e) [
          | none ↦ some (w1, some e)
          | some d ↦ elim (gives_up max_retries max_wait attempt d) [
            | true ↦ some (w1, some e)
            | false ↦
                let (w2, stopped) = api.sleep (wait_of d) w1 in
                elim stopped [
                  | some x ↦ some (w2, some x)
                  | none ↦ flood_wait_loop max_retries max_wait fuel (suc attempt) w2
                ]
          ]
        ]
      ]

  -- The loop of the retry middleware; `none` where the fuel runs out.
  unfoldable pub retry_loop : ℕ → ℕ → ℕ → W → Option (W × Option E)
  unfolding is_transient
  retry_loop max_retries zero attempt w = none
  retry_loop max_retries (suc fuel) attempt w =
      let (w1, answer) = api.invoke w in
      elim answer [
        | none ↦ some (w1, none)
        | some e ↦
            elim (api.canceled w1
              || not (ltb_ℤ (pos attempt) (pos max_retries))
              || not (is_transient (api.as_rpc e))) [
                | true ↦ some (w1, some e)
                | false ↦ retry_loop max_retries fuel (suc attempt) w1
              ]
      ]
