-- ===== src/Controller/Vault.antt =====
-- internal/controller/vault.go: a private key from a Vault secret.
pub mod Laws
use github_app_operator.Base.{String, ◌<>◌, Option, none, some, [], ◌∷◌, lookup}
use github_app_operator.Base.Int.{pos}
use github_app_operator.Api.Types.{Bytes}
use github_app_operator.World.{World, VaultValue, text, not_text, TokenRequest}
use github_app_operator.World.Action.{
  Action, Result, ok, stop, failed, lift, no_error, need, ◌>>=◌, ◌>>◌,
}
use github_app_operator.World.Calls.{create_token, vault_login, vault_get}
use github_app_operator.Controller.Config.{Config}

-- `authInfo == nil`
abbrev auth_info : Option String → Result (Unit {0})
auth_info (some a) = ok tt
auth_info none = stop (failed "no auth info returned after login to vault")

-- `secret.Data[secretKey].(string)`
abbrev string_value : Option VaultValue → Result String
string_value (some (text s)) = ok s
string_value (some not_text) = stop (failed "failed type assertion on vault secret data")
string_value none = stop (failed "failed type assertion on vault secret data")

module _ (W : World) where
  unfoldable pub request_token : String → String → String → Action String
  request_token vault_audience kubernetes_namespace service_account_name = do
    let request : TokenRequest = record {
      audiences = vault_audience ∷ [];
      expiration_seconds = pos 600;
      namespace = kubernetes_namespace;
      service_account = service_account_name;
    }
    r ← create_token W request
    lift (need (λ e. "failed to create token request to k8s api: " <> e) r)

  unfoldable pub get_secret_with_kubernetes_auth :
      String → String → String → String → String → Action Bytes
  get_secret_with_kubernetes_auth token vault_role mount_path secret_path secret_key = do
    lift (
        no_error (λ e. "failed auth to vault using k8s auth with JWT: " <> e)
          (W.new_kubernetes_auth vault_role token))
    login ← vault_login W vault_role token
    info ← lift (need (λ e. "failed to login to vault with k8s auth: " <> e) login)
    lift (auth_info info)
    r ← vault_get W mount_path secret_path
    secret ← lift (need (λ e. "failed to read secret in vault: " <> e) r)
    encoded ← lift (string_value (lookup secret_key secret))
    lift (need (λ e. "failed to base64 decode the private key: " <> e) (W.base64_decode encoded))

  module _ (c : Config) where
    -- githubapp_controller.go
    unfoldable pub get_private_key_from_vault : String → String → String → Action Bytes
    unfolding request_token get_secret_with_kubernetes_auth
    get_private_key_from_vault mount_path secret_path secret_key = do
      token ← request_token c.vault_audience c.kubernetes_namespace c.service_account_name
      get_secret_with_kubernetes_auth token c.vault_role mount_path secret_path secret_key
