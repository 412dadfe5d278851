-- ===== src/Controller/PrivateKey.antt =====
-- getPrivateKey of internal/controller/githubapp_controller.go: the cached key, or the key from
-- Vault, GCP or a Kubernetes secret, which is then cached.
pub mod Safety
pub mod Laws
pub mod Again
use github_app_operator.Base.{
  String, ◌<>◌, Bool, true, false, ◌&&◌, ◌||◌, not, Option, none, some, lookup, str_eq,
  if◌then◌else◌,
}
use github_app_operator.Api.Types.{Bytes, GithubApp}
use github_app_operator.World.{World, api_message, file_message}
use github_app_operator.World.Action.{
  Action, Result, ok, stop, failed, panicked, pure, fail, lift, current_app, wrap_error, no_error,
  need, ◌>>=◌, ◌>>◌,
}
use github_app_operator.World.Calls.{get_secret, write_file}
use github_app_operator.Controller.Config.{Config}
use github_app_operator.Controller.Cache.{get_private_key_from_cache}
use github_app_operator.Controller.Vault.{get_private_key_from_vault}
use github_app_operator.Controller.Gcp.{get_secret_from_secret_mgr}

-- p != nil
abbrev pub is_set {ℓ} : {A : Type ℓ} → Option A → Bool
is_set none = false
is_set (some v) = true

-- len(b) == 0
abbrev pub is_empty : Bytes → Bool
is_empty b = str_eq b ""

-- *p, which panics if p is nil
abbrev pub deref : {A : Type 0} → Option A → Result A
deref none = stop panicked
deref (some v) = ok v

-- `privateKey, ok := secret.Data["privateKey"]`
abbrev private_key_entry : Option Bytes → Result Bytes
private_key_entry none = stop (failed "privateKey not found in Secret")
private_key_entry (some key) = ok key

module _ (W : World) where
  unfoldable pub get_private_key_from_secret : Action Bytes
  get_private_key_from_secret = do
    a ← current_app
    r ← get_secret W (record { namespace = a.meta.namespace; name = a.spec.private_key_secret })
    secret ← lift (need api_message r)
    lift (private_key_entry (lookup "privateKey" secret.contents))

  unfoldable pub get_private_key_from_gcp : Action Bytes
  get_private_key_from_gcp = do
    a ← current_app
    get_secret_from_secret_mgr W a.spec.gcp_private_key_secret

  -- The end of each of the three branches: an empty key is refused, any other is cached.
  unfoldable pub cache_key : String → String → Bytes → Action (Bytes × String)
  cache_key empty_message path key = if is_empty key then fail empty_message else do
    e ← write_file W path key
    lift (no_error (λ x. "failed to write private key to file: " <> file_message x) e)
    pure (key, path)

  module _ (c : Config) where
    abbrev vault_is_unset : Bool
    vault_is_unset =
        str_eq W.vault_address "" || str_eq c.vault_audience "" || str_eq c.vault_role ""

    abbrev vault_configured : Result (Unit {0})
    vault_configured =
        if vault_is_unset
        then stop (
            failed
              "failed on vault auth: VAULT_ROLE, VAULT_ROLE_AUDIENCE and VAULT_ADDR are required env variables for Vault authentication")
        else ok tt

    -- The branch of `spec.vaultPrivateKey`.
    unfoldable pub from_vault : String → Action (Bytes × String)
    from_vault path = do
      a ← current_app
      lift vault_configured
      v ← lift (deref a.spec.vault_private_key)
      key ←
          wrap_error (λ e. "failed to get private key from vault: " <> e)
            (get_private_key_from_vault W c v.mount_path v.secret_path v.secret_key)
      cache_key "empty private key from vault" path key

    -- The branch of `spec.googlePrivateKeySecret`.
    unfoldable pub from_gcp : String → Action (Bytes × String)
    from_gcp path = do
      key ←
          wrap_error (λ e. "failed to get private key from GCP secret: " <> e)
            get_private_key_from_gcp
      cache_key "empty private key from GCP" path key

    -- The branch of `spec.privateKeySecret`.
    unfoldable pub from_secret : String → Action (Bytes × String)
    from_secret path = do
      key ←
          wrap_error (λ e. "failed to get private key from kubernetes secret: " <> e)
            get_private_key_from_secret
      cache_key "empty private key from k8s secret" path key

    -- The three tests, in their order, over what the cache gave.
    unfoldable pub choose_source : GithubApp → Bytes × String → Action (Bytes × String)
    choose_source a (key, path) =
        if is_set a.spec.vault_private_key && is_empty key
        then from_vault path
        else if not (str_eq a.spec.gcp_private_key_secret "") && is_empty key
        then from_gcp path
        else if not (str_eq a.spec.private_key_secret "") && is_empty key
        then from_secret path
        else pure (key, path)

    -- The key and the path of its cache file.
    unfoldable pub get_private_key : Action (Bytes × String)
    get_private_key = do
      a ← current_app
      cached ← get_private_key_from_cache W c a.meta.namespace a.meta.name
      choose_source a cached
