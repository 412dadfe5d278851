-- ===== src/Tests/Keys.antt =====
-- The theorems on the webhook, the private key, and the status, at concrete data.
use github_app_operator.Base.{
  ◌≡◌, refl, ◌↔◌, ◌⊎◌, ◌≢◌, none, some, [], arith, str_eq, String, Bool-cases, inl, inr,
}
use github_app_operator.Api.Webhook.{
  validate_create, validate_update, one_source_message, KeySource, from_kubernetes,
}
use github_app_operator.Api.Webhook.Laws.{validate_create-KeySource}
use github_app_operator.World.Action.{
  State, ok, stop, failed, pure, halt, lift, current_app, on_error, wrap_error, ◌>>=◌,
}
use github_app_operator.World.Calls.{perform}
use github_app_operator.World.Since.{Fixed}
use github_app_operator.Controller.Cache.{key_path, get_private_key_from_cache}
use github_app_operator.Controller.PrivateKey.{
  get_private_key, choose_source, from_secret, get_private_key_from_secret, cache_key,
}
use github_app_operator.Controller.PrivateKey.Safety.{nonempty_of, KeyCall, get_private_key-KeyCall}
use github_app_operator.Controller.PrivateKey.Laws.{
  Provided, get_private_key-Provided, get_private_key-validate_create,
}
use github_app_operator.Controller.Status.{update_github_app_status_with_retry}
use github_app_operator.Controller.Status.Laws.{
  Ending, status_updates, too_many, update_github_app_status_with_retry-Ending,
}
use github_app_operator.Controller.Status.Stale.{
  LocksOptimistically, update_github_app_status_with_retry-futile,
}
use github_app_operator.Tests.Setting.{app, config, start, calm, stale}

validate_create-KeySource_example :
    ((validate_create app ≡ none) ↔ KeySource app.spec)
    × (validate_update app app ≡ validate_create app)
    × ((validate_create app ≡ none) ⊎ (validate_create app ≡ some one_source_message))
validate_create-KeySource_example = validate_create-KeySource app app

get_private_key-KeyCall_example :
    Fixed app (KeyCall calm config app) [] (get_private_key calm config start).1
get_private_key-KeyCall_example = get_private_key-KeyCall calm config start

abbrev keyed : State
keyed = (get_private_key calm config start).1

abbrev path : String
path = key_path calm config "team" "app"

key_found : get_private_key calm config start ≡ (ok ("PEM", path), keyed)
unfolding get_private_key get_private_key_from_cache choose_source from_secret
    get_private_key_from_secret cache_key ◌>>=◌ pure lift halt current_app perform wrap_error
    on_error
key_found = refl

get_private_key-Provided_example : (path ≡ path) × Provided calm config app start "PEM" path keyed
get_private_key-Provided_example = get_private_key-Provided calm config start key_found

app_admitted : validate_create app ≡ none
app_admitted =
    (validate_create-KeySource app app).0.1 (from_kubernetes refl (nonempty_of "key" refl) refl)

get_private_key-validate_create_example : ◌≢◌ {A = String} "PEM" ""
get_private_key-validate_create_example =
    get_private_key-validate_create calm config start app_admitted key_found

update_github_app_status_with_retry-Ending_example :
    Ending calm 5000 3 0 start (update_github_app_status_with_retry calm 5000 3 start)
update_github_app_status_with_retry-Ending_example =
    update_github_app_status_with_retry-Ending calm 5000 3 start (omega arith)

stale_locks : LocksOptimistically stale
stale_locks = record {
  stays_stale = λ t u a b later same (e, h).
      elim (Bool-cases (str_eq a.meta.resource_version "8")) [
        | inl k ↦ cc (rw k at h)
        | inr k ↦ ("modified", rw (same, k) refl)
      ];
}

update_github_app_status_with_retry-futile_example :
    ((update_github_app_status_with_retry stale 5000 3 start).0 ≡ stop (failed too_many))
    × (status_updates (update_github_app_status_with_retry stale 5000 3 start).1.trace ≡ 3)
update_github_app_status_with_retry-futile_example =
    update_github_app_status_with_retry-futile stale 5000 3 stale_locks start (omega arith)
      ("modified", refl)
