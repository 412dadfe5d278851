-- ===== src/Controller/Cache.antt =====
-- The private key cache of internal/controller/githubapp_controller.go: one file for each
-- GithubApp, at <privateKeyCachePath>/<namespace>/<name>.
use github_app_operator.Base.{
  String, ◌<>◌, Bool, true, false, Option, none, some, [], ◌∷◌, if◌then◌else◌,
}
use github_app_operator.Api.Types.{Bytes}
use github_app_operator.World.{World, FileError, not_exist, other_file_error, file_message}
use github_app_operator.World.Action.{Action, pure, lift, no_error, need, ◌>>=◌, ◌>>◌}
use github_app_operator.World.Calls.{stat, mkdir_all, read_file, remove_file}
use github_app_operator.Controller.Config.{Config}

-- os.IsNotExist(err)
abbrev pub is_not_exist : Option FileError → Bool
is_not_exist (some (not_exist e)) = true
is_not_exist (some (other_file_error e)) = false
is_not_exist none = false

-- err == nil
abbrev pub is_nil {ℓ} : {E : Type ℓ} → Option E → Bool
is_nil none = true
is_nil (some e) = false

-- `err != nil && !os.IsNotExist(err)` of deletePrivateKeyCache, as the error returned.
abbrev removal_error : Option FileError → Option FileError
removal_error e = if is_not_exist e then none else e

module _ (W : World) (c : Config) where
  abbrev pub key_dir : String → String
  key_dir namespace = W.join (c.private_key_cache_path ∷ namespace ∷ [])

  abbrev pub key_path : String → String → String
  key_path namespace name = W.join (key_dir namespace ∷ name ∷ [])

  unfoldable pub delete_private_key_cache : String → String → Action (Unit {0})
  delete_private_key_cache namespace name = do
    let path = W.join (c.private_key_cache_path ∷ namespace ∷ name ∷ [])
    e ← remove_file W path
    lift (
        no_error (λ x. "failed to remove cached private key: " <> file_message x) (removal_error e))

  unfoldable pub make_dir : String → Action (Unit {0})
  make_dir dir = do
    e ← mkdir_all W dir
    lift (no_error (λ x. "failed to create private key directory: " <> file_message x) e)

  unfoldable pub read_key : String → Action (Bytes × String)
  read_key path = do
    r ← read_file W path
    key ← lift (need (λ x. "failed to read private key from file: " <> file_message x) r)
    pure (key, path)

  -- The key, empty if none is cached, and the path of its file.
  unfoldable pub get_private_key_from_cache : String → String → Action (Bytes × String)
  unfolding make_dir read_key
  get_private_key_from_cache namespace name = do
    let dir = key_dir namespace
    let path = key_path namespace name
    d ← stat W dir
    if is_not_exist d then make_dir dir else pure tt
    f ← stat W path
    if is_nil f then read_key path else pure ("", path)
