-- ===== src/Tg/Tests.antt =====
-- Tests of the middlewares and of the mapping of errors.
use tgup.Prelude.{ℕ, suc, ◌==◌, ◌≡◌, ◌<◌, ◌≤◌, refl, false, Option, none, some, if◌then◌else◌, ltb}
use tgup.Prelude.Text.{codes}
use tgup.Prelude.Int.{ℤ, pos}
use tgup.Errors.{flood_wait}
use tgup.Tg.Mapping.{Gotd, app, map_gotd_error}
use tgup.Tg.Middleware.{Api, flood_wait_loop, retry_loop, is_transient}
use tgup.Tg.Calls.{CountsCalls, flood_wait_loop-returns}

-- The world counts the calls; the first two fail. The error is its flood wait in nanoseconds.
abbrev api : Api ℕ ℤ
api = record {
  invoke = λ n. (suc n, if ltb n 2 then some (pos 5) else none);
  as_flood_wait = λ e. some e;
  as_rpc = λ e. some (record { code = pos 500; kind = codes "RPC_CALL_FAIL" });
  canceled = λ n. false;
  sleep = λ d n. (n, none);
}

counted : CountsCalls api (λ n. n)
counted = record { invoked = λ n. refl; slept = λ d n. refl }

third_call :
    (retry_loop api 3 4 0 0 ≡ some (3, none)) × (retry_loop api 1 2 0 0 ≡ some (2, some (pos 5)))
unfolding retry_loop is_transient
third_call = (refl, refl)

flood_wait_loop-returns_example :
    (r : ℕ × Option ℤ) × (flood_wait_loop api 3 (pos 60) 4 0 0 ≡ some r) × (0 < r.0) × (r.0 ≤ 4)
flood_wait_loop-returns_example = flood_wait_loop-returns api (λ n. n) counted 3 (pos 60) 3 0 0 refl

-- Errors that are the codes of the server's answers.
abbrev answers : Gotd ℕ
answers = record {
  is_canceled = λ e. false;
  is_deadline = λ e. false;
  as_flood_wait = λ e. if e == 420 then some (30, codes "30s") else none;
  is_type = λ e name. false;
  as_rpc = λ e. some (record { code = pos e; message = codes "INTERNAL" });
  is_conn_dead = λ e. false;
  is_net_error = λ e. false;
  is_eof = λ e. false;
  is_unexpected_eof = λ e. false;
  text = λ e. codes "rpc error";
}

waits_for_flood : map_gotd_error answers 420 ≡ app (flood_wait 30 (codes "30s"))
unfolding map_gotd_error
waits_for_flood = refl
