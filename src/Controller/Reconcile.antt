-- ===== src/Controller/Reconcile.antt =====
-- Reconcile of internal/controller/githubapp_controller.go. The mutex serialises its calls, so
-- one call is one action; logging is left out.
pub mod Laws
pub mod CleanUp
pub mod Checked
pub mod Runs
pub mod Rests
use github_app_operator.Base.{
  String, ◌<>◌, Bool, true, false, Option, none, some, ◌==◌, str_eq, if◌then◌else◌,
}
use github_app_operator.Base.Int.{pos}
use github_app_operator.Api.Types.{Time, Duration, ObjectKey}
use github_app_operator.World.{World, ApiError, not_found, conflict, other_failure, api_message}
use github_app_operator.World.Action.{
  Action, pure, fail, lift, current_app, set_app, on_error, no_error, ◌>>=◌, ◌>>◌,
}
use github_app_operator.World.Calls.{get_app, update_status, record_event}
use github_app_operator.Controller.Config.{Config}
use github_app_operator.Controller.Cache.{delete_private_key_cache}
use github_app_operator.Controller.Status.{set_error, update_status_with_error}
use github_app_operator.Controller.Rollout.{warning_event}
use github_app_operator.Controller.AccessToken.{ignore_error}
use github_app_operator.Controller.Expiry.{
  check_expiry_and_update_access_token, check_expiry_and_requeue,
}
use github_app_operator.Controller.Owned.{delete_owned_secrets}

-- `!githubApp.ObjectMeta.DeletionTimestamp.IsZero()`: a nil pointer is zero, too.
abbrev pub is_being_deleted : Option Time → Bool
is_being_deleted none = false
is_being_deleted (some t) = if t == 0 then false else true

-- ctrl.Result{}
abbrev pub no_requeue : Duration
no_requeue = pos 0

module _ (W : World) (c : Config) where
  unfoldable pub clean_up : ObjectKey → Action Duration
  clean_up req = do
    delete_owned_secrets W
    delete_private_key_cache W c req.namespace req.name
    pure no_requeue

  -- What follows a failed check.
  unfoldable pub report_failure : String → Action (Unit {0})
  report_failure e = do
    ignore_error (update_status_with_error W e)
    record_event (warning_event "FailedRenewal" ("Error: " <> e))
    fail e

  unfoldable pub clear_error : Action (Unit {0})
  clear_error = do
    a ← current_app
    if str_eq a.status.error ""
        then pure tt
        else do set_error ""; e ← update_status W; lift (no_error api_message e)

  -- Checks the token of a GithubApp that is there to stay.
  unfoldable pub refresh : Action Duration
  refresh = do
    on_error (check_expiry_and_update_access_token W c) report_failure
    clear_error
    pure (check_expiry_and_requeue c)

  -- By the error of Get.
  unfoldable pub after_get : ObjectKey → Option ApiError → Action Duration
  after_get req (some (not_found e)) = clean_up req
  after_get req (some (conflict e)) = fail e
  after_get req (some (other_failure e)) = fail e
  after_get req none = do
    a ← current_app
    if is_being_deleted a.meta.deletion_timestamp then clean_up req else refresh

  unfoldable pub reconcile : ObjectKey → Action Duration
  reconcile req = do found ← get_app W req; let (e, a) = found; set_app a; after_get req e
