-- ===== src/Controller/Owned.antt =====
-- deleteOwnedSecrets of internal/controller/githubapp_controller.go.
pub mod Laws
use github_app_operator.Base.{String, Bool, ◌&&◌, List, [], ◌∷◌, str_eq, if◌then◌else◌}
use github_app_operator.Api.Types.{OwnerReference, Secret}
use github_app_operator.World.{World, api_message}
use github_app_operator.World.Action.{Action, pure, lift, current_app, no_error, need, ◌>>=◌, ◌>>◌}
use github_app_operator.World.Calls.{list_secrets, delete_secret}

abbrev pub owner_kind : String
owner_kind = "GithubApp"

-- `ownerRef.Kind == "GithubApp" && ownerRef.Name == githubApp.Name`
abbrev pub names_owner : String → OwnerReference → Bool
names_owner app_name r = str_eq r.kind owner_kind && str_eq r.name app_name

module _ (W : World) where
  unfoldable pub delete_one : Secret → Action (Unit {0})
  delete_one secret = do e ← delete_secret W secret; lift (no_error api_message e)

  -- The inner loop: the first reference that fits deletes the secret and breaks.
  unfoldable pub delete_if_owned : String → Secret → List OwnerReference → Action (Unit {0})
  unfolding delete_one
  delete_if_owned app_name secret [] = pure tt
  delete_if_owned app_name secret (r ∷ refs) =
      let rest = delete_if_owned app_name secret refs in
      if names_owner app_name r then delete_one secret else rest

  -- The outer loop.
  unfoldable pub delete_all_owned : String → List Secret → Action (Unit {0})
  delete_all_owned app_name [] = pure tt
  delete_all_owned app_name (secret ∷ secrets) =
      delete_if_owned app_name secret secret.meta.owner_references
      >> delete_all_owned app_name secrets

  unfoldable pub delete_owned_secrets : Action (Unit {0})
  delete_owned_secrets = do
    a ← current_app
    r ← list_secrets W a.meta.namespace
    secrets ← lift (need api_message r)
    delete_all_owned a.meta.name secrets
