-- ===== src/Controller/Status/Safety.antt =====
-- The calls of updateGithubAppStatusWithRetry (internal/controller/githubapp_controller.go).
use github_app_operator.Base.{ℕ, zero, suc, ◌+◌, leb, Option, none, some}
use github_app_operator.Api.Types.{Time, Duration, GithubApp}
use github_app_operator.World.{World, Call, Trace, ApiError, not_found, conflict, other_failure}
use github_app_operator.World.Action.{Action}
use github_app_operator.World.Since.{
  Keeps, Keeps-pure, Keeps-halt, Keeps-bind, Keeps-if, Keeps-current_app, Only, Keeps-perform,
  Only-update_status, Only-set_app,
}
use github_app_operator.Controller.Status.{
  set_expiry, after_update, attempt_update, update_github_app_status_with_retry,
}

module _ (W : World) (P : Call → Type 0) (t₀ : Trace)
    (statuses : (a : GithubApp) → P (Call.update_status a))
    (sleeps : (d : Duration) → P (Call.sleep d)) (expires_at : Time) (max_attempts : ℕ) where
  abbrev Safe : {A : Type 0} → Action A → Type 0
  Safe m = Keeps (Only P t₀) m

  after_update-Safe :
      (n : ℕ) (m : Action (Unit {0})) (e : Option ApiError)
      → Safe m
      → Safe (after_update W expires_at max_attempts n m e)
  after_update-Safe n m none k = Keeps-pure tt
  after_update-Safe n m (some (conflict e)) k =
      Keeps-if (leb max_attempts n) _ _ (λ last. Keeps-halt _)
        (λ more. Keeps-bind _ _ (Keeps-perform _ _ (sleeps _)) (λ u. k))
  after_update-Safe n m (some (not_found e)) k = Keeps-halt _
  after_update-Safe n m (some (other_failure e)) k = Keeps-halt _

  attempt_update-Safe : (fuel n : ℕ) → Safe (attempt_update W expires_at max_attempts fuel n)
  unfolding attempt_update set_expiry
  attempt_update-Safe zero n = Keeps-halt _
  attempt_update-Safe (suc fuel) n =
      Keeps-bind _ _ (Keeps-bind _ _ Keeps-current_app (λ b. Only-set_app _)) λ u.
        Keeps-bind _ _ (Only-update_status W statuses)
          λ e. after_update-Safe (n + 1) _ e (attempt_update-Safe fuel (n + 1))

  pub update_github_app_status_with_retry-Safe :
      Safe (update_github_app_status_with_retry W expires_at max_attempts)
  unfolding update_github_app_status_with_retry
  update_github_app_status_with_retry-Safe = attempt_update-Safe (suc max_attempts) 0
