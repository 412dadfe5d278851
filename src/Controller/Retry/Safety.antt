-- ===== src/Controller/Retry/Safety.antt =====
-- The calls of the retry loop.
use github_app_operator.Base.{ℕ, zero, suc, ◌+◌, String}
use github_app_operator.Api.Types.{Duration, GithubApp}
use github_app_operator.World.{World, Call, Trace, Reply, HttpRequest, HttpResponse}
use github_app_operator.World.Action.{Action, Result}
use github_app_operator.World.Since.{Keeps, Keeps-lift, Keeps-bind, Fixed, Fixed-perform}
use github_app_operator.Controller.Retry.{
  Verdict, final, again, back_off, after_verdict, with_retries,
}

module _ (W : World) {A : Type 0} (request : HttpRequest)
    (judge : Reply String HttpResponse → Verdict A) (exhausted : Result A) (P : Call → Type 0)
    (a : GithubApp) (t₀ : Trace) (asks : P (Call.http_do request))
    (jitters : P (Call.rand_intn 500)) (sleeps : (d : Duration) → P (Call.sleep d)) where
  back_off_safe : (i : ℕ) (h : String) → Keeps (Fixed a P t₀) (back_off W i h)
  unfolding back_off
  back_off_safe i h =
      Keeps-bind _ _ (Fixed-perform _ _ jitters) (λ jitter. Fixed-perform _ _ (sleeps _))

  after_verdict_safe :
      (i : ℕ) (m : Action A) (v : Verdict A)
      → Keeps (Fixed a P t₀) m
      → Keeps (Fixed a P t₀) (after_verdict W i m v)
  after_verdict_safe i m (final r) k = Keeps-lift r
  after_verdict_safe i m (again h) k = Keeps-bind _ _ (back_off_safe i h) (λ u. k)

  pub with_retries_safe :
      (left i : ℕ) → Keeps (Fixed a P t₀) (with_retries W request judge exhausted left i)
  unfolding with_retries
  with_retries_safe zero i = Keeps-lift exhausted
  with_retries_safe (suc left) i =
      Keeps-bind _ _ (Fixed-perform _ _ asks)
        λ reply. after_verdict_safe i _ (judge reply) (with_retries_safe left (i + 1))
