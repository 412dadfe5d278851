-- ===== src/Tests/Reconciles.antt =====
-- The theorems on the checks, the removal and Reconcile at concrete data.
use github_app_operator.Base.{String, ◌≡◌, refl, ◌↔◌, ◌≢◌, false, subst, All, [], ◌∷◌}
use github_app_operator.Api.Types.{Secret, OwnerReference}
use github_app_operator.World.Action.{
  State, ok, stop, failed, pure, halt, lift, current_app, set_app, on_error, wrap_error, ◌>>=◌,
}
use github_app_operator.World.Calls.{perform, update_status}
use github_app_operator.World.Since.{Since}
use github_app_operator.Controller.Cache.{get_private_key_from_cache, delete_private_key_cache}
use github_app_operator.Controller.PrivateKey.{
  get_private_key, choose_source, from_secret, get_private_key_from_secret, cache_key,
}
use github_app_operator.Controller.PrivateKey.Safety.{nonempty_of}
use github_app_operator.Controller.Retry.{with_retries}
use github_app_operator.Controller.Token.{generate_access_token}
use github_app_operator.Controller.Status.{
  with_error, set_expiry, attempt_update, update_github_app_status_with_retry,
}
use github_app_operator.Controller.Rollout.{rollout_deployment, upgrade_for_labels}
use github_app_operator.Controller.AccessToken.{
  announce, create_access_token_secret, store_token, ignore_error, request_access_token,
  create_or_update_access_token,
}
use github_app_operator.Controller.Expiry.{
  has_expired, check_expiry_and_requeue, check_expiry_and_update_access_token,
}
use github_app_operator.Controller.Expiry.Decision.{Decision}
use github_app_operator.Controller.Expiry.Laws.{check_expiry_and_update_access_token-Decision}
use github_app_operator.Controller.Predicates.{github_app_predicate}
use github_app_operator.Controller.Predicates.Laws.{IsIgnored, github_app_predicate-IsIgnored}
use github_app_operator.Controller.Reconcile.{reconcile, after_get, refresh, clear_error}
use github_app_operator.Controller.Reconcile.Laws.{
  fetched, StoresStatus, Reported, reconcile-Reported, Refreshed, reconcile-Refreshed,
}
use github_app_operator.Controller.Reconcile.CleanUp.{
  CleanUpCall, reconcile-CleanUpCall, NoSecretDeleted, NamesOwners, reconcile-NoSecretDeleted,
}
use github_app_operator.Controller.Reconcile.Checked.{TokenChecked, reconcile-TokenChecked}
use github_app_operator.Tests.Setting.{
  app, app_being_deleted, config, request, start, secret_of, calm, offline, gone, leaving,
}

check_expiry_and_update_access_token-Decision_example :
    Decision calm config start (check_expiry_and_update_access_token calm config start)
check_expiry_and_update_access_token-Decision_example =
    check_expiry_and_update_access_token-Decision calm config start

abbrev called : State
called = fetched request app start

abbrev failed_check : State
failed_check = (check_expiry_and_update_access_token offline config called).1

abbrev failure : String
failure =
    "failed to generate access token: failed to send HTTP post request to GitHub API: connection refused"

check_fails :
    check_expiry_and_update_access_token offline config called
    ≡ (stop (failed failure), failed_check)
unfolding check_expiry_and_update_access_token has_expired create_or_update_access_token
    request_access_token generate_access_token with_retries get_private_key
    get_private_key_from_cache choose_source from_secret get_private_key_from_secret cache_key
    ignore_error delete_private_key_cache ◌>>=◌ pure lift halt current_app perform wrap_error
    on_error
check_fails = refl

reconcile-Reported_example :
    Reported offline config request start failure failed_check
      (reconcile offline config request start)
reconcile-Reported_example = reconcile-Reported offline config request start refl refl check_fails

calm_stores : StoresStatus calm
calm_stores = record { stored = λ t a b h. cc }

abbrev refreshed : State
refreshed = (reconcile calm config request start).1

reconciled : reconcile calm config request start ≡ (ok config.reconcile_interval, refreshed)
unfolding reconcile after_get refresh clear_error check_expiry_and_requeue
    check_expiry_and_update_access_token has_expired create_or_update_access_token
    request_access_token store_token create_access_token_secret announce rollout_deployment
    upgrade_for_labels update_github_app_status_with_retry attempt_update set_expiry update_status
    generate_access_token with_retries get_private_key get_private_key_from_cache choose_source
    from_secret get_private_key_from_secret cache_key ◌>>=◌ pure lift halt current_app set_app
    perform wrap_error on_error
reconciled = refl

reconcile-Refreshed_example :
    Refreshed calm config request start called config.reconcile_interval refreshed
reconcile-Refreshed_example =
    reconcile-Refreshed calm config request start calm_stores refl refl reconciled

reconcile-TokenChecked_example : TokenChecked calm config called
reconcile-TokenChecked_example =
    reconcile-TokenChecked calm config request start calm_stores refl refl reconciled

reconcile-CleanUpCall_example :
    Since
      (CleanUpCall leaving config request app_being_deleted)
      []
      (reconcile leaving config request start).1.trace
reconcile-CleanUpCall_example = reconcile-CleanUpCall leaving config request start refl refl

gone_names : NamesOwners gone
gone_names = record {
  named = λ t n xs h.
      let listed : secret_of "other" ∷ secret_of "app" ∷ [] ≡ xs = cc in
      subst
        (All (λ (x : Secret). All (λ (r : OwnerReference). r.name ≢ "") x.meta.owner_references))
        listed ((nonempty_of "other" refl, tt), ((nonempty_of "app" refl, tt), tt));
}

reconcile-NoSecretDeleted_example :
    Since NoSecretDeleted [] (reconcile gone config request start).1.trace
reconcile-NoSecretDeleted_example =
    reconcile-NoSecretDeleted gone config request start gone_names refl

github_app_predicate-IsIgnored_example :
    (github_app_predicate (with_error "no token" app) app ≡ false)
    ↔ IsIgnored (with_error "no token" app) app
github_app_predicate-IsIgnored_example =
    github_app_predicate-IsIgnored (with_error "no token" app) app
