-- ===== src/Controller/Reconcile/Rests.antt =====
-- Reconcile of internal/controller/githubapp_controller.go, when there is nothing to do.
use github_app_operator.Base.{String, ◌≡◌, refl, ap, ◌∙◌, ◌≢◌, ◌≤◌, true, false, none, ◌∷◌}
use github_app_operator.Base.Int.{leb_ℤ}
use github_app_operator.Api.Types.{GithubApp, ObjectKey}
use github_app_operator.World.{World, Call, Trace}
use github_app_operator.World.Action.{State, ok, on_error, current_app, pure, ◌>>=◌}
use github_app_operator.World.Since.{Since, and_then}
use github_app_operator.Controller.Config.{Config, git_username}
use github_app_operator.Controller.Validity.{is_access_token_valid}
use github_app_operator.Controller.Validity.Laws.{is_access_token_valid-Accepted}
use github_app_operator.Controller.AccessToken.Kept.{
  LeavesSecret, ServesSecrets, StoredToken, token_key,
}
use github_app_operator.Controller.Expiry.{
  time_until, check_expiry_and_requeue, check_expiry_and_update_access_token,
}
use github_app_operator.Controller.Expiry.Decision.{called, looked_up}
use github_app_operator.Controller.Expiry.Rests.{check_expiry_and_update_access_token-StoredToken}
use github_app_operator.Controller.Reconcile.{is_being_deleted, clear_error, refresh, reconcile}
use github_app_operator.Controller.Reconcile.Laws.{fetched, reconcile_found}

module _ (W : World) (c : Config) where
  -- A check that succeeds, and no error to clear.
  refresh_quiet :
      (s u : State)
      → check_expiry_and_update_access_token W c s ≡ (ok tt, u)
      → u.app.status.error ≡ ""
      → refresh W c s ≡ (ok c.reconcile_interval, u)
  unfolding refresh clear_error check_expiry_and_requeue ◌>>=◌ on_error current_app pure
  refresh_quiet s u h e = rw (h, e) refl

  module _ (serves : ServesSecrets W) (req : ObjectKey) (s : State) {a : GithubApp} where
    -- A Reconcile of a GithubApp that is there to stay, whose stored token is still good, and whose
    -- status holds no error, changes nothing: it succeeds, asks to be called again after the
    -- configured interval, and makes no call but those that look at the GithubApp, at the clock, at
    -- the secret and at the validity of the token. The token is good if its secret was left alone
    -- since it was stored, GitHub accepts it, and its expiry is set, not past, and further away than
    -- the threshold. The API server is taken to serve secrets as they were written.
    pub reconcile-StoredToken :
        (t : Trace) {token : String} {u : State}
        → W.get_app s.trace req ≡ (none, a)
        → is_being_deleted a.meta.deletion_timestamp ≡ false
        → a.status.error ≡ ""
        → StoredToken W (token_key a) token t
        → Since (LeavesSecret (token_key a)) t s.trace
        → a.status.expires_at ≢ 0
        → W.now (Call.get_app req ∷ s.trace) ≤ a.status.expires_at
        → is_access_token_valid W git_username token (looked_up W c (fetched req a s))
          ≡ (ok true, u)
        → leb_ℤ (time_until a.status.expires_at (W.now u.trace)) c.time_before_expiry ≡ false
        → reconcile W c req s ≡ (ok c.reconcile_interval, called Call.read_clock u)
    reconcile-StoredToken t {token} {u} g d e stored later n l v f =
        let same : u.app ≡ a = (is_access_token_valid-Accepted W git_username token _ v).kept in
        reconcile_found W c req s g d
        ∙ refresh_quiet (fetched req a s) (called Call.read_clock u)
            (check_expiry_and_update_access_token-StoredToken W serves c (fetched req a s) t stored
              (and_then tt later) n l v f)
            (ap (λ (b : GithubApp). b.status.error) same ∙ e)
