-- ===== src/Tests/Renewals.antt =====
-- The theorems on a stored token, at a world that keeps the token secret.
use github_app_operator.Base.{◌≡◌, refl, true, [], ◌∷◌, arith, inl}
use github_app_operator.Base.Int.{pos}
use github_app_operator.Api.Types.{no_meta, Secret}
use github_app_operator.World.{World, Call, good}
use github_app_operator.World.Action.{
  State, ok, pure, halt, lift, current_app, set_app, on_error, wrap_error, ◌>>=◌,
}
use github_app_operator.World.Calls.{perform, update_status}
use github_app_operator.World.Since.{no_more}
use github_app_operator.Controller.Config.{Config, git_username}
use github_app_operator.Controller.Cache.{get_private_key_from_cache}
use github_app_operator.Controller.PrivateKey.{
  get_private_key, choose_source, from_secret, get_private_key_from_secret, cache_key,
}
use github_app_operator.Controller.Retry.{with_retries}
use github_app_operator.Controller.Token.{generate_access_token}
use github_app_operator.Controller.Validity.{is_access_token_valid}
use github_app_operator.Controller.Status.{
  set_expiry, attempt_update, update_github_app_status_with_retry,
}
use github_app_operator.Controller.Rollout.{rollout_deployment, upgrade_for_labels}
use github_app_operator.Controller.AccessToken.{
  new_secret, announce, create_access_token_secret, store_token, request_access_token,
  create_or_update_access_token,
}
use github_app_operator.Controller.AccessToken.Kept.{StoredToken, token_key}
use github_app_operator.Controller.AccessToken.Stored.{
  Renewal, create_or_update_access_token-Renewal,
}
use github_app_operator.Controller.Expiry.{
  has_expired, check_stored_token, check_secret, check_token, renew_near_expiry, has_invalid_key,
  check_expiry_and_update_access_token,
}
use github_app_operator.Controller.Expiry.Decision.{called, looked_up}
use github_app_operator.Controller.Expiry.Rests.{check_expiry_and_update_access_token-StoredToken}
use github_app_operator.Controller.Reconcile.{reconcile}
use github_app_operator.Controller.Reconcile.Laws.{fetched}
use github_app_operator.Controller.Reconcile.Rests.{reconcile-StoredToken}
use github_app_operator.Tests.Setting.{app, config, request, start}
use github_app_operator.Tests.Keeping.{granted_app, keeping, keeping_serves}

abbrev renewed : State
renewed = (create_or_update_access_token keeping config start).1

renews : create_or_update_access_token keeping config start ≡ (ok tt, renewed)
unfolding create_or_update_access_token request_access_token store_token create_access_token_secret
    announce rollout_deployment upgrade_for_labels update_github_app_status_with_retry
    attempt_update set_expiry update_status generate_access_token with_retries get_private_key
    get_private_key_from_cache choose_source from_secret get_private_key_from_secret cache_key ◌>>=◌
    pure lift halt current_app set_app perform wrap_error on_error
renews = refl

create_or_update_access_token-Renewal_example : Renewal keeping app renewed.trace
create_or_update_access_token-Renewal_example =
    create_or_update_access_token-Renewal keeping keeping_serves config start renews

abbrev stored_secret : Secret
stored_secret = new_secret app "token" "ghs"

-- The secret has just been created, and the status says that its token expires at 5000.
abbrev holding : State
holding = record { app = granted_app; trace = Call.create_secret stored_secret ∷ [] }

held : StoredToken keeping (token_key app) "ghs" holding.trace
held = record {
  secret = stored_secret;
  before = [];
  at = refl;
  cleared = refl;
  entries = refl;
  taken = inl (refl, no_more);
}

abbrev eager : Config
eager = record config { time_before_expiry = pos 1000 }

abbrev validated : State
validated = (is_access_token_valid keeping git_username "ghs" (looked_up keeping eager holding)).1

accepted :
    is_access_token_valid keeping git_username "ghs" (looked_up keeping eager holding)
    ≡ (ok true, validated)
unfolding is_access_token_valid with_retries ◌>>=◌ pure lift halt perform wrap_error on_error
accepted = refl

check_expiry_and_update_access_token-StoredToken_example :
    check_expiry_and_update_access_token keeping eager holding
    ≡ (ok tt, called Call.read_clock validated)
check_expiry_and_update_access_token-StoredToken_example =
    check_expiry_and_update_access_token-StoredToken keeping keeping_serves eager holding
      holding.trace held no_more (ground arith) (omega arith) accepted refl

abbrev found : State
found = fetched request granted_app holding

abbrev seen : State
seen = (is_access_token_valid keeping git_username "ghs" (looked_up keeping eager found)).1

accepted_again :
    is_access_token_valid keeping git_username "ghs" (looked_up keeping eager found)
    ≡ (ok true, seen)
unfolding is_access_token_valid with_retries ◌>>=◌ pure lift halt perform wrap_error on_error
accepted_again = refl

reconcile-StoredToken_example :
    reconcile keeping eager request holding
    ≡ (ok eager.reconcile_interval, called Call.read_clock seen)
reconcile-StoredToken_example =
    reconcile-StoredToken keeping eager keeping_serves request holding holding.trace refl refl refl
      held no_more (ground arith) (omega arith) accepted_again refl

-- The token secret holds the username alone, and GitHub answers a request without a token.
abbrev tokenless : World
tokenless = record keeping {
  get_secret = λ t k.
      good
        (record { meta = no_meta; contents = ("username", git_username) ∷ []; string_data = [] });
}

abbrev asked_empty : State
asked_empty =
    (is_access_token_valid tokenless git_username "" (looked_up tokenless eager holding)).1

-- The check leaves such a secret as it is.
empty_token_stays :
    check_expiry_and_update_access_token tokenless eager holding
    ≡ (ok tt, called Call.read_clock asked_empty)
unfolding check_expiry_and_update_access_token has_expired check_stored_token check_secret
    check_token renew_near_expiry has_invalid_key is_access_token_valid with_retries ◌>>=◌ pure lift
    halt current_app perform wrap_error on_error
empty_token_stays = refl
