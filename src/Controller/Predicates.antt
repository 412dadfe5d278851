-- ===== src/Controller/Predicates.antt =====
-- The event filters of internal/controller/githubapp_controller.go.
pub mod Laws
use github_app_operator.Base.{Bool, true, false, not, ◌&&◌, ◌==◌, str_eq, if◌then◌else◌}
use github_app_operator.Api.Types.{Time, GithubApp, Secret}

abbrev pub is_zero_time : Time → Bool
is_zero_time t = t == 0

-- UpdateFunc of githubAppPredicate, on ObjectOld and ObjectNew.
pub github_app_predicate : GithubApp → GithubApp → Bool
github_app_predicate old new =
    if is_zero_time old.status.expires_at && not (is_zero_time new.status.expires_at)
    then false
    else if not (str_eq old.status.error "") && str_eq new.status.error ""
    then false
    else true

-- CreateFunc of accessTokenSecretPredicate.
pub access_token_secret_predicate : Secret → Bool
access_token_secret_predicate created = false
