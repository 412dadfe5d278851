-- ===== src/Controller/AccessToken.antt =====
-- createOrUpdateAccessToken of internal/controller/githubapp_controller.go: a new token from
-- GitHub, stored in the access token secret.
pub mod Safety
pub mod Laws
pub mod Announce
pub mod Kept
pub mod Stored
use github_app_operator.Base.{String, ◌<>◌, [], ◌∷◌, Map, erase}
use github_app_operator.Api.Types.{Time, GithubApp, Secret, no_meta}
use github_app_operator.World.{
  World, Reply, good, bad, ApiError, not_found, conflict, other_failure, api_message, Response,
}
use github_app_operator.World.Action.{
  Action, pure, fail, lift, current_app, on_error, wrap_error, no_error, need, ◌>>=◌, ◌>>◌,
}
use github_app_operator.World.Calls.{get_secret, create_secret, update_secret, record_event}
use github_app_operator.Controller.Config.{Config, git_username}
use github_app_operator.Controller.Cache.{delete_private_key_cache}
use github_app_operator.Controller.PrivateKey.{get_private_key}
use github_app_operator.Controller.Token.{generate_access_token}
use github_app_operator.Controller.Status.{update_github_app_status_with_retry}
use github_app_operator.Controller.Rollout.{
  rollout_deployment, full_name, normal_event, warning_event,
}

abbrev pub token_data : String → Map String
token_data access_token = ("token", access_token) ∷ ("username", git_username) ∷ []

abbrev pub new_secret : GithubApp → String → String → Secret
new_secret a name access_token = record {
  meta = record no_meta { name = name; namespace = a.meta.namespace };
  contents = [];
  string_data = token_data access_token;
}

-- `for k := range m { delete(m, k) }`, over the entries that the iteration meets.
unfoldable pub delete_keys : Map String → Map String → Map String
delete_keys [] m = m
delete_keys ((k, v) ∷ met) m = delete_keys met (erase k m)

unfoldable pub refreshed : Secret → String → Secret
unfolding delete_keys
refreshed existing access_token = record existing {
  contents = delete_keys existing.contents existing.contents;
  string_data = token_data access_token;
}

-- `if err := m(); err != nil { log }`
unfoldable pub ignore_error : Action (Unit {0}) → Action (Unit {0})
unfolding on_error
ignore_error m = on_error m (λ e. pure tt)

module _ (W : World) where
  -- The end of both functions that store a token, but for the event of the second one.
  unfoldable pub announce : String → String → Time → Action (Unit {0})
  announce status_text rollout_text expires_at = do
    wrap_error (λ e. status_text <> e) (update_github_app_status_with_retry W expires_at 3)
    on_error (rollout_deployment W) (λ e. do
      record_event (warning_event "FailedDeploymentUpgrade" ("Error: " <> e))
      fail (rollout_text <> e))

  unfoldable pub create_access_token_secret : String → String → Time → Action (Unit {0})
  create_access_token_secret name access_token expires_at = do
    a ← current_app
    owned ← lift (
        need (λ e. "failed to set owner reference for access token secret: " <> e)
          (W.set_controller_reference a (new_secret a name access_token)))
    e ← create_secret W owned
    lift (no_error api_message e)
    record_event
        (normal_event "Created" ("Created access token secret " <> full_name a.meta.namespace name))
    announce "failed after creating secret: "
        "failed to rollout deployment after after creating secret: " expires_at

  unfoldable pub update_access_token_secret : Secret → String → String → Time → Action (Unit {0})
  update_access_token_secret existing name access_token expires_at = do
    a ← current_app
    owned ← lift (
        need (λ e. "failed to set owner reference for access token secret: " <> e)
          (W.set_controller_reference a existing))
    e ← update_secret W (refreshed owned access_token)
    lift (no_error api_message e)
    announce "failed after updating secret: " "failed to rollout deployment after updating secret: "
        expires_at
    now_stored ← current_app
    record_event (
        normal_event "Updated"
          ("Updated access token secret " <> full_name now_stored.meta.namespace name))

  -- Creates the secret if Get did not find it, and updates it if it did.
  unfoldable pub store_token : String → Response → Reply ApiError Secret → Action (Unit {0})
  store_token name t (good existing) = update_access_token_secret existing name t.token t.expires_at
  store_token name t (bad (not_found e)) = create_access_token_secret name t.token t.expires_at
  store_token name t (bad (conflict e)) = fail ("failed to get access token secret: " <> e)
  store_token name t (bad (other_failure e)) = fail ("failed to get access token secret: " <> e)

  module _ (c : Config) where
    -- A failed request drops the cached key.
    unfoldable pub request_access_token : GithubApp → String → Action Response
    request_access_token a private_key =
        on_error (generate_access_token W a.spec.app_id a.spec.install_id private_key) (λ e. do
          ignore_error (delete_private_key_cache W c a.meta.namespace a.meta.name)
          fail ("failed to generate access token: " <> e))

    unfoldable pub create_or_update_access_token : Action (Unit {0})
    create_or_update_access_token = do
      found ← get_private_key W c
      let (private_key, private_key_path) = found
      a ← current_app
      t ← request_access_token a private_key
      existing ←
          get_secret W (record { namespace = a.meta.namespace; name = a.spec.access_token_secret })
      store_token a.spec.access_token_secret t existing
