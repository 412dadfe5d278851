-- ===== src/Controller/Retry.antt =====
-- The loop of generateAccessToken and isAccessTokenValid (internal/controller/
-- githubapp_controller.go): five requests at most, with a growing wait after each answer that
-- GitHub limits. The two functions spell out the same loop around their own reading of an answer.
pub mod Laws
pub mod Safety
pub mod Wait
use github_app_operator.Base.{
  ℕ, zero, suc, ◌+◌, ◌*◌, ◌^◌, String, Bool, ◌||◌, Option, none, some, ◌==◌,
}
use github_app_operator.Base.Int.{ℤ, pos, ◌+ℤ◌, ◌*ℤ◌, wrap64}
use github_app_operator.Api.Types.{Duration}
use github_app_operator.World.{World, Reply, HttpRequest, HttpResponse}
use github_app_operator.World.Action.{Action, Result, lift, ◌>>=◌, ◌>>◌}
use github_app_operator.World.Calls.{http_do, rand_intn, sleep}
use github_app_operator.Controller.Config.{second, millisecond}

abbrev pub max_retries : ℕ
max_retries = 5

-- StatusForbidden or StatusTooManyRequests
abbrev pub is_rate_limited : ℕ → Bool
is_rate_limited code = code == 403 || code == 429

-- What an answer means: the loop returns, or it waits by the header retry-after and goes on.
pub data Verdict (A : Type 0) : Type 0 where
  final : Result A → Verdict A
  again : String → Verdict A

-- `retryAfter, err := strconv.Atoi(...)`, with 1 if the header is no number
abbrev pub retry_after_seconds : Option ℤ → ℤ
retry_after_seconds none = pos 1
retry_after_seconds (some n) = n

-- time.Duration(retryAfter) * time.Second, then `*= 1 << i`, then `+= jitter * time.Millisecond`,
-- each in int64
unfoldable pub wait_time : ℤ → ℕ → ℕ → Duration
wait_time retry_after i jitter =
    let base = wrap64 (retry_after *ℤ pos second) in
    let scaled = wrap64 (base *ℤ pos (2 ^ i)) in
    wrap64 (scaled +ℤ wrap64 (pos (jitter * millisecond)))

module _ (W : World) where
  unfoldable pub back_off : ℕ → String → Action (Unit {0})
  back_off i header = do
    jitter ← rand_intn W 500
    sleep (wait_time (retry_after_seconds (W.atoi header)) i jitter)

  module _ {A : Type 0} where
    abbrev pub after_verdict : ℕ → Action A → Verdict A → Action A
    after_verdict i rest (final r) = lift r
    after_verdict i rest (again header) = back_off i header >> rest

    -- `for i := ...; i < maxRetries; i++`, by the rounds that are left; `exhausted` is what
    -- stands after the loop.
    unfoldable pub with_retries :
        HttpRequest → (Reply String HttpResponse → Verdict A) → Result A → ℕ → ℕ → Action A
    with_retries request judge exhausted zero i = lift exhausted
    with_retries request judge exhausted (suc left) i = do
      reply ← http_do W request
      after_verdict i (with_retries request judge exhausted left (i + 1)) (judge reply)
