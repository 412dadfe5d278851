-- ===== src/Controller/Status.antt =====
-- The updates of the status of a GithubApp (internal/controller/githubapp_controller.go).
pub mod Laws
pub mod Safety
pub mod Stale
use github_app_operator.Base.{
  ℕ, zero, suc, ◌+◌, ◌*◌, String, ◌<>◌, Option, none, some, leb, if◌then◌else◌,
}
use github_app_operator.Base.Int.{pos}
use github_app_operator.Api.Types.{Time, Duration, GithubApp}
use github_app_operator.World.{World, ApiError, not_found, conflict, other_failure, api_message}
use github_app_operator.World.Action.{
  Action, out_of_fuel, pure, halt, fail, lift, current_app, set_app, no_error, ◌>>=◌, ◌>>◌,
}
use github_app_operator.World.Calls.{update_status, sleep}
use github_app_operator.Controller.Config.{second}

abbrev pub with_error : String → GithubApp → GithubApp
with_error e a = record a { status = record a.status { error = e } }

abbrev pub with_expiry : Time → GithubApp → GithubApp
with_expiry t a = record a { status = record a.status { expires_at = t } }

-- `githubApp.Status.Error = e`
unfoldable pub set_error : String → Action (Unit {0})
set_error e = do a ← current_app; set_app (with_error e a)

-- `githubApp.Status.ExpiresAt = t`
unfoldable pub set_expiry : Time → Action (Unit {0})
set_expiry t = do a ← current_app; set_app (with_expiry t a)

-- time.Duration(attempts*2) * time.Second
abbrev pub pause : ℕ → Duration
pause attempts = pos (attempts * 2 * second)

module _ (W : World) where
  unfoldable pub update_status_with_error : String → Action (Unit {0})
  update_status_with_error message = do
    set_error message
    e ← update_status W
    lift
        (no_error (λ x. "failed to update status field 'Error' for GithubApp: " <> api_message x) e)

  module _ (expires_at : Time) (max_attempts : ℕ) where
    -- The rest of a round, after the update has answered and attempts has been counted up.
    abbrev pub after_update : ℕ → Action (Unit {0}) → Option ApiError → Action (Unit {0})
    after_update attempts rest none = pure tt
    after_update attempts rest (some (conflict e)) =
        if leb max_attempts attempts
        then fail "maximum retry attempts reached, failed to update GitHubApp status"
        else sleep (pause attempts) >> rest
    after_update attempts rest (some (not_found e)) =
        fail ("failed to update GitHubApp status: " <> e)
    after_update attempts rest (some (other_failure e)) =
        fail ("failed to update GitHubApp status: " <> e)

    -- `for { attempts++; ... }` on fuel.
    unfoldable pub attempt_update : ℕ → ℕ → Action (Unit {0})
    attempt_update zero attempts = halt out_of_fuel
    attempt_update (suc fuel) attempts = do
      set_expiry expires_at
      e ← update_status W
      after_update (attempts + 1) (attempt_update fuel (attempts + 1)) e

    -- The fuel is one more than the attempts allowed.
    unfoldable pub update_github_app_status_with_retry : Action (Unit {0})
    update_github_app_status_with_retry = attempt_update (suc max_attempts) 0
