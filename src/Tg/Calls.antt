-- ===== src/Tg/Calls.antt =====
-- How often the middlewares call (internal/tg/middleware.go).
use tgup.Prelude.{
  ℕ, zero, suc, ◌+◌, ◌≡◌, ◌≤◌, ◌<◌, ◌≢◌, Bool, false, not, ◌||◌, Option, none, some, arith,
  Bool-cases, Option-cases, inl, inr,
}
use tgup.Prelude.Int.{ℤ, pos, ltb_ℤ}
use tgup.Tg.Middleware.{Api, is_transient, gives_up, wait_of, flood_wait_loop, retry_loop}

-- A world that counts the calls of `invoke`, and nothing else.
pub record CountsCalls {W E : Type 0} (api : Api W E) (calls : W → ℕ) : Type 0 where
  pub invoked : (w : W) → calls (api.invoke w).0 ≡ suc (calls w)
  pub slept : (d : ℤ) (w : W) → calls (api.sleep d w).0 ≡ calls w

module _ {W E : Type 0} (api : Api W E) (calls : W → ℕ) (counts : CountsCalls api calls) where
  -- Whether the retry middleware stops at an error.
  abbrev stops : ℕ → ℕ → W → E → Bool
  stops max_retries attempt w x =
      api.canceled (api.invoke w).0
      || not (ltb_ℤ (pos attempt) (pos max_retries))
      || not (is_transient (api.as_rpc x))

  no_more :
      (max_retries attempt : ℕ) (w : W) (x : E)
      → zero + attempt ≡ max_retries
      → stops max_retries attempt w x ≢ false
  no_more max_retries attempt w x h e = ground (arith, h, e)

  -- With fuel for one attempt more than the retries that are left, the retry middleware returns, after
  -- one call at least and no more calls than that fuel.
  pub retry_loop-returns :
      (max_retries left attempt : ℕ) (w : W)
      → left + attempt ≡ max_retries
      → (r : W × Option E) × (retry_loop api max_retries (suc left) attempt w ≡ some r)
        × (calls w < calls r.0)
        × (calls r.0 ≤ calls w + suc left)
  unfolding retry_loop
  retry_loop-returns max_retries zero attempt w h =
      let one = counts.invoked w in
      elim (Option-cases (api.invoke w).1) [
        | inl e ↦ (((api.invoke w).0, none), ground (arith, e), omega arith, omega arith)
        | inr (x, e) ↦ elim (Bool-cases (stops max_retries attempt w x)) [
          | inl stop ↦
              (((api.invoke w).0, some x), ground (arith, e, stop), omega arith, omega arith)
          | inr again ↦ absurd (no_more max_retries attempt w x h again)
        ]
      ]
  retry_loop-returns max_retries (suc left) attempt w h =
      let one = counts.invoked w in
      elim (Option-cases (api.invoke w).1) [
        | inl e ↦ (((api.invoke w).0, none), ground (arith, e), omega arith, omega arith)
        | inr (x, e) ↦ elim (Bool-cases (stops max_retries attempt w x)) [
          | inl stop ↦
              (((api.invoke w).0, some x), ground (arith, e, stop), omega arith, omega arith)
          | inr again ↦
              let (r, eq, less, more) =
                retry_loop-returns max_retries left (suc attempt) (api.invoke w).0 (omega arith) in
              (r, ground (arith, e, again, eq), omega arith, omega arith)
        ]
      ]

  must_give_up :
      (max_retries attempt : ℕ) (max_wait d : ℤ)
      → zero + attempt ≡ max_retries
      → gives_up max_retries max_wait attempt d ≢ false
  unfolding gives_up
  must_give_up max_retries attempt max_wait d h e = ground (arith, h, e)

  -- With fuel for one attempt more than the retries that are left, the flood-wait middleware returns,
  -- after one call at least and no more calls than that fuel.
  pub flood_wait_loop-returns :
      (max_retries : ℕ) (max_wait : ℤ) (left attempt : ℕ) (w : W)
      → left + attempt ≡ max_retries
      → (r : W × Option E) × (flood_wait_loop api max_retries max_wait (suc left) attempt w
          ≡ some r)
        × (calls w < calls r.0)
        × (calls r.0 ≤ calls w + suc left)
  unfolding flood_wait_loop
  flood_wait_loop-returns max_retries max_wait zero attempt w h =
      let one = counts.invoked w in
      elim (Option-cases (api.invoke w).1) [
        | inl e ↦ (((api.invoke w).0, none), ground (arith, e), omega arith, omega arith)
        | inr (x, e) ↦ elim (Option-cases (api.as_flood_wait x)) [
          | inl other ↦
              (((api.invoke w).0, some x), ground (arith, e, other), omega arith, omega arith)
          | inr (d, flood) ↦ elim (Bool-cases (gives_up max_retries max_wait attempt d)) [
            | inl stop ↦ (
              ((api.invoke w).0, some x),
              ground (arith, e, flood, stop),
              omega arith,
              omega arith,
            )
            | inr again ↦ absurd (must_give_up max_retries attempt max_wait d h again)
          ]
        ]
      ]
  flood_wait_loop-returns max_retries max_wait (suc left) attempt w h =
      let one = counts.invoked w in
      elim (Option-cases (api.invoke w).1) [
        | inl e ↦ (((api.invoke w).0, none), ground (arith, e), omega arith, omega arith)
        | inr (x, e) ↦ elim (Option-cases (api.as_flood_wait x)) [
          | inl other ↦
              (((api.invoke w).0, some x), ground (arith, e, other), omega arith, omega arith)
          | inr (d, flood) ↦ elim (Bool-cases (gives_up max_retries max_wait attempt d)) [
            | inl stop ↦ (
              ((api.invoke w).0, some x),
              ground (arith, e, flood, stop),
              omega arith,
              omega arith,
            )
            | inr again ↦
                let still = counts.slept (wait_of d) (api.invoke w).0 in
                let w2 = (api.sleep (wait_of d) (api.invoke w).0).0 in
                elim (Option-cases (api.sleep (wait_of d) (api.invoke w).0).1) [
                  | inr (y, stopped) ↦ (
                    (w2, some y),
                    ground (arith, e, flood, again, stopped),
                    omega arith,
                    omega arith,
                  )
                  | inl waited ↦
                      let (r, eq, less, more) =
                        flood_wait_loop-returns max_retries max_wait left (suc attempt) w2
                          (omega arith) in
                      (r, ground (arith, e, flood, again, waited, eq), omega arith, omega arith)
                ]
          ]
        ]
      ]
