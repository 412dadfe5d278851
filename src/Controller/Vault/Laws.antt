-- ===== src/Controller/Vault/Laws.antt =====
-- What a successful getPrivateKeyFromVault rests on.
use github_app_operator.Base.{String, ◌≡◌, refl, ap, ◌∙◌, Option, none, some, [], ◌∷◌, Map, lookup}
use github_app_operator.Base.Int.{pos}
use github_app_operator.Api.Types.{Bytes}
use github_app_operator.World.{World, Trace, VaultValue, text, not_text, TokenRequest, good}
use github_app_operator.World.Action.{State, ok}
use github_app_operator.World.Invert.{perform-ok, bind-ok, lift-ok, need-ok}
use github_app_operator.Controller.Config.{Config}
use github_app_operator.Controller.Vault.{
  auth_info, string_value, request_token, get_secret_with_kubernetes_auth,
  get_private_key_from_vault,
}

module _ (W : World) (c : Config) where
  -- The request for a token of the controller's own service account, for Vault's audience and for
  -- ten minutes.
  abbrev pub own_token_request : TokenRequest
  own_token_request = record {
    audiences = c.vault_audience ∷ [];
    expiration_seconds = pos 600;
    namespace = c.kubernetes_namespace;
    service_account = c.service_account_name;
  }

  -- The evidence for a key from Vault.
  pub record FromVault (mount_path secret_path secret_key : String) (key : Bytes) : Type 0 where
    pub token : String
    pub auth : String
    pub secret : Map VaultValue
    pub encoded : String
    pub asked : Trace
    pub logged_in : Trace
    pub read : Trace
    pub token_granted : W.create_token asked own_token_request ≡ good token
    pub authenticated : W.vault_login logged_in c.vault_role token ≡ good (some auth)
    pub found : W.vault_get read mount_path secret_path ≡ good secret
    pub held : lookup secret_key secret ≡ some (text encoded)
    pub decoded : W.base64_decode encoded ≡ good key

  auth_info-ok : (r : Option String) → auth_info r ≡ ok tt → (a : String) × (r ≡ some a)
  auth_info-ok (some a) h = (a, refl)
  auth_info-ok none h = cc

  string_value-ok : (r : Option VaultValue) {x : String} → string_value r ≡ ok x → r ≡ some (text x)
  string_value-ok (some (text y)) h = cc
  string_value-ok (some not_text) h = cc
  string_value-ok none h = cc

  -- A key from Vault was read at the given path with a login by a token of the controller's own
  -- service account, for Vault's audience; it is the decoded text under the given key of the
  -- secret.
  pub get_private_key_from_vault-FromVault :
      (mount_path secret_path secret_key : String) (s : State) {key : Bytes} {u : State}
      → get_private_key_from_vault W c mount_path secret_path secret_key s ≡ (ok key, u)
      → FromVault mount_path secret_path secret_key key
  unfolding get_private_key_from_vault request_token get_secret_with_kubernetes_auth
  get_private_key_from_vault-FromVault mount_path secret_path secret_key s h =
      let (token, s₁, e₁, h₁) = bind-ok _ _ s h in
      let (r, s₂, e₂, h₂) = bind-ok _ _ s e₁ in
      let (x₃, s₃, e₃, h₃) = bind-ok _ _ s₁ h₁ in
      let (login, s₄, e₄, h₄) = bind-ok _ _ s₃ h₃ in
      let (info, s₅, e₅, h₅) = bind-ok _ _ s₄ h₄ in
      let (x₆, s₆, e₆, h₆) = bind-ok _ _ s₅ h₅ in
      let (got, s₇, e₇, h₇) = bind-ok _ _ s₆ h₆ in
      let (secret, s₈, e₈, h₈) = bind-ok _ _ s₇ h₇ in
      let (encoded, s₉, e₉, h₉) = bind-ok _ _ s₈ h₈ in
      let (auth, same) = auth_info-ok info (lift-ok _ s₅ e₆).0 in
      record {
        token = token;
        auth = auth;
        secret = secret;
        encoded = encoded;
        asked = s.trace;
        logged_in = s₃.trace;
        read = s₆.trace;
        token_granted = perform-ok _ _ s e₂ ∙ need-ok _ r (lift-ok _ s₂ h₂).0;
        authenticated = perform-ok _ _ s₃ e₄ ∙ need-ok _ login (lift-ok _ s₄ e₅).0 ∙ ap good same;
        found = perform-ok _ _ s₆ e₇ ∙ need-ok _ got (lift-ok _ s₇ e₈).0;
        held = string_value-ok _ (lift-ok _ s₈ e₉).0;
        decoded = need-ok _ _ (lift-ok _ s₉ h₉).0;
      }
