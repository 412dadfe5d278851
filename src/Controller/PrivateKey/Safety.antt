-- ===== src/Controller/PrivateKey/Safety.antt =====
-- Which calls getPrivateKey may make: the precedence of the sources, and what is cached.
use github_app_operator.Base.{String, ◌≡◌, refl, ◌≢◌, true, false, ◌&&◌, not, arith, str_eq, eq_iff}
use github_app_operator.Api.Types.{Bytes, GithubApp}
use github_app_operator.World.{World, Call, Trace}
use github_app_operator.World.Action.{Action, State, ok, pure, lift, ◌>>=◌}
use github_app_operator.World.Calls.{perform}
use github_app_operator.World.Since.{
  no_more, Keeps, Keeps-pure, Keeps-bind-value, Keeps-if, Fixed, Fixed-current_app, fixed_rules,
}
use github_app_operator.Controller.Config.{Config}
use github_app_operator.Controller.Cache.{key_dir, key_path, get_private_key_from_cache}
use github_app_operator.Controller.Vault.{get_private_key_from_vault}
use github_app_operator.Controller.Gcp.{get_secret_from_secret_mgr}
use github_app_operator.Controller.PrivateKey.{
  is_set, is_empty, get_private_key_from_secret, get_private_key_from_gcp, cache_key, from_vault,
  from_gcp, from_secret, choose_source, get_private_key,
}

-- The path that the cache gives is that of the GithubApp's own file.
pub get_private_key_from_cache-path :
    (W : World) (c : Config) (namespace name : String) (s : State) {key : Bytes} {p : String}
    {u : State}
    → get_private_key_from_cache W c namespace name s ≡ (ok (key, p), u)
    → p ≡ key_path W c namespace name
unfolding get_private_key_from_cache ◌>>=◌ perform lift pure
get_private_key_from_cache-path W c namespace name s h = ground arith

pub nonempty_of : (key : Bytes) → is_empty key ≡ false → key ≢ ""
nonempty_of key h = ground (arith, eq_iff key "")

module _ (W : World) (c : Config) (a : GithubApp) where
  abbrev path : String
  path = key_path W c a.meta.namespace a.meta.name

  -- What getPrivateKey may do for the GithubApp a. Vault is read only if the resource names it;
  -- GCP only if it does not; a Kubernetes secret only if it names neither of the two.
  abbrev pub KeyCall : Call → Type 0
  KeyCall (Call.stat p) = Unit
  KeyCall (Call.mkdir_all p) = p ≡ key_dir W c a.meta.namespace
  KeyCall (Call.read_file p) = p ≡ path
  KeyCall (Call.write_file p key) = (p ≡ path) × (key ≢ "")
  KeyCall (Call.create_token r) = is_set a.spec.vault_private_key ≡ true
  KeyCall (Call.vault_login role token) =
      (is_set a.spec.vault_private_key ≡ true) × (role ≡ c.vault_role)
  KeyCall (Call.vault_get mount p) = is_set a.spec.vault_private_key ≡ true
  KeyCall Call.gcp_new_client = is_set a.spec.vault_private_key ≡ false
  KeyCall (Call.gcp_access name) =
      (is_set a.spec.vault_private_key ≡ false) × (name ≡ a.spec.gcp_private_key_secret)
  KeyCall Call.gcp_close = is_set a.spec.vault_private_key ≡ false
  KeyCall (Call.get_secret k) =
      (is_set a.spec.vault_private_key ≡ false)
      × (a.spec.gcp_private_key_secret ≡ "")
      × (k ≡ record { namespace = a.meta.namespace; name = a.spec.private_key_secret })
  KeyCall _ = ⊥

  module _ (t₀ : Trace) where
    abbrev Safe : {A : Type 0} → Action A → Type 0
    Safe m = Keeps (Fixed a KeyCall t₀) m

    cache-Safe : Safe (get_private_key_from_cache W c a.meta.namespace a.meta.name)
    unfolding get_private_key_from_cache
    cache-Safe = search (fixed_rules, tt) depth 12

    vault-Safe :
        is_set a.spec.vault_private_key ≡ true
        → (mount secret_path key : String)
        → Safe (get_private_key_from_vault W c mount secret_path key)
    unfolding get_private_key_from_vault
    vault-Safe set mount secret_path key = search (fixed_rules) depth 16

    gcp-Safe : is_set a.spec.vault_private_key ≡ false → Safe (get_private_key_from_gcp W)
    unfolding get_private_key_from_gcp get_secret_from_secret_mgr
    gcp-Safe unset = search (fixed_rules) depth 16

    secret-Safe :
        is_set a.spec.vault_private_key ≡ false
        → a.spec.gcp_private_key_secret ≡ ""
        → Safe (get_private_key_from_secret W)
    unfolding get_private_key_from_secret
    secret-Safe no_vault no_gcp = search (fixed_rules) depth 16

    write-Safe : (message : String) (key : Bytes) → Safe (cache_key W message path key)
    unfolding cache_key
    write-Safe message key = search (fixed_rules, nonempty_of) depth 12

    from_vault-Safe : is_set a.spec.vault_private_key ≡ true → Safe (from_vault W c path)
    unfolding from_vault
    from_vault-Safe set = search (fixed_rules, vault-Safe, write-Safe) depth 12

    from_gcp-Safe : is_set a.spec.vault_private_key ≡ false → Safe (from_gcp W c path)
    unfolding from_gcp
    from_gcp-Safe unset = search (fixed_rules, gcp-Safe, write-Safe) depth 12

    from_secret-Safe :
        is_set a.spec.vault_private_key ≡ false
        → a.spec.gcp_private_key_secret ≡ ""
        → Safe (from_secret W c path)
    unfolding from_secret
    from_secret-Safe no_vault no_gcp = search (fixed_rules, secret-Safe, write-Safe) depth 12

    choose-Safe : (key : Bytes) → Safe (choose_source W c a (key, path))
    unfolding choose_source
    choose-Safe key =
        Keeps-if (is_set a.spec.vault_private_key && is_empty key) _ _
          (λ set. from_vault-Safe (ground arith))
          λ unset.
            Keeps-if (not (str_eq a.spec.gcp_private_key_secret "") && is_empty key) _ _
              (λ gcp. from_gcp-Safe (ground arith))
              λ no_gcp.
                Keeps-if (not (str_eq a.spec.private_key_secret "") && is_empty key) _ _
                  (λ kubernetes.
                    from_secret-Safe (ground arith)
                      (ground (arith, eq_iff a.spec.gcp_private_key_secret "")))
                  (λ nothing. Keeps-pure _)

    get_private_key-Safe : Safe (get_private_key W c)
    unfolding get_private_key
    get_private_key-Safe = Fixed-current_app _ (
        Keeps-bind-value _ _ cache-Safe
          λ s (key, p) u e. rw (get_private_key_from_cache-path W c _ _ s e) (choose-Safe key))

-- getPrivateKey leaves the GithubApp alone, and makes only the calls that KeyCall allows: Vault is
-- read only if the resource names it, GCP Secret Manager only if it names no Vault secret, and a
-- Kubernetes secret only if it names neither; no file is written but the GithubApp's own cache
-- file, and never with an empty key; nothing is deleted, created or updated.
pub get_private_key-KeyCall :
    (W : World) (c : Config) (s : State)
    → Fixed s.app (KeyCall W c s.app) s.trace (get_private_key W c s).1
get_private_key-KeyCall W c s = (get_private_key-Safe W c s.app s.trace).at s (refl, no_more)
