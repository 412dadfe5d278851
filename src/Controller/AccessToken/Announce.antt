-- ===== src/Controller/AccessToken/Announce.antt =====
-- The calls that createAccessTokenSecret and updateAccessTokenSecret of
-- internal/controller/githubapp_controller.go make after the write of the secret.
use github_app_operator.Base.{String}
use github_app_operator.Api.Types.{Time, Duration, Deployment, GithubApp}
use github_app_operator.World.{World, Call, Trace, Event}
use github_app_operator.World.Since.{
  Keeps, Keeps-bind, Keeps-wrap_error, Keeps-on_error, Keeps-perform, Keeps-halt, Only,
}
use github_app_operator.Controller.Rollout.Safety.{Restamped, rollout_deployment-Safe}
use github_app_operator.Controller.Status.Safety.{update_github_app_status_with_retry-Safe}
use github_app_operator.Controller.AccessToken.{announce}

-- A property of calls that holds of all that follows the write.
pub record AllowsAnnouncing (W : World) (P : Call → Type 0) : Type 0 where
  pub clock : P Call.read_clock
  pub lists : (n k v : String) → P (Call.list_deployments n k v)
  pub updates : (x : Deployment) → Restamped W x → P (Call.update_deployment x)
  pub events : (e : Event) → P (Call.record_event e)
  pub statuses : (a : GithubApp) → P (Call.update_status a)
  pub sleeps : (d : Duration) → P (Call.sleep d)

pub announce-Only :
    {W : World} {P : Call → Type 0}
    → AllowsAnnouncing W P
    → (t₀ : Trace) (status_text rollout_text : String) (expires_at : Time)
    → Keeps (Only P t₀) (announce W status_text rollout_text expires_at)
unfolding announce
announce-Only {W} {P} p t₀ status_text rollout_text expires_at =
    Keeps-bind _ _
      (Keeps-wrap_error _ _
        (update_github_app_status_with_retry-Safe W P t₀ p.statuses p.sleeps expires_at 3))
      λ u.
        Keeps-on_error _ _ (rollout_deployment-Safe W P t₀ p.clock p.lists p.updates p.events)
          (λ e. Keeps-bind _ _ (Keeps-perform _ _ (p.events _)) (λ v. Keeps-halt _))
