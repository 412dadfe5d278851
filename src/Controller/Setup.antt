-- ===== src/Controller/Setup.antt =====
-- getServiceAccountAndNamespace and SetupWithManager of
-- internal/controller/githubapp_controller.go.
pub mod Laws
pub mod Total
use github_app_operator.Base.{
  ◌*◌, String, ◌<>◌, Option, none, some, List, [], ◌∷◌, str_eq, if◌then◌else◌,
}
use github_app_operator.Base.Int.{pos}
use github_app_operator.Api.Types.{Duration}
use github_app_operator.World.{World, Reply, good, bad, file_message}
use github_app_operator.World.Action.{
  Action, Result, ok, stop, failed, pure, lift, on_error, no_error, need, ◌>>=◌, ◌>>◌,
}
use github_app_operator.World.Calls.{read_file}
use github_app_operator.Controller.Config.{Config, second}

-- A decoded JSON value, as far as the type assertions tell values apart: a string, an object, or
-- something else.
mutual
  pub data Json : Type 0 where
    text : String → Json
    object : Fields → Json
    other : Json

  pub data Fields : Type 0 where
    end : Fields
    field : String → Json → Fields → Fields

-- claims[k]; a missing key reads as nil, which no assertion accepts
abbrev pub get_field : String → Fields → Json
get_field k end = other
get_field k (field j v fs) = if str_eq j k then v else get_field k fs

-- v.(map[string]interface{})
abbrev pub as_object : String → Json → Result Fields
as_object message (object fs) = ok fs
as_object message (text s) = stop (failed message)
as_object message other = stop (failed message)

-- v.(string)
abbrev pub as_text : String → Json → Result String
as_text message (text s) = ok s
as_text message (object fs) = stop (failed message)
as_text message other = stop (failed message)

-- What the process finds where it runs. `parse_unverified` is the claims of a JWT, `none` if they
-- are no jwt.MapClaims; `complete` is the end of the controller's registration.
pub record Process : Type 0 where
  pub getenv : String → String
  pub parse_duration : String → Reply String Duration
  pub parse_unverified : String → Reply String (Option Fields)
  pub complete : Option String

-- `parsedToken.Claims.(jwt.MapClaims)`
abbrev map_claims : Option Fields → Result Fields
map_claims (some fs) = ok fs
map_claims none = stop (failed "failed to parse token claims")

abbrev pub default_requeue_after : Duration
default_requeue_after = pos (5 * 60 * second)

abbrev pub default_time_before_expiry : Duration
default_time_before_expiry = pos (15 * 60 * second)

abbrev pub duration_or : Duration → Reply String Duration → Duration
duration_or default (good d) = d
duration_or default (bad e) = default

-- tokenPath ...string: the first path given, or the place where Kubernetes mounts the token
abbrev pub token_path_or_default : List String → String
token_path_or_default [] = "/var/run/secrets/kubernetes.io/serviceaccount/token"
token_path_or_default (p ∷ ps) = p

-- The service account's name and the namespace that the claims hold.
unfoldable pub account_of_claims : Option Fields → Action (String × String)
account_of_claims parsed = do
  claims ← lift (map_claims parsed)
  kubernetes ← lift (
      as_object "failed to assert kubernetes.io claim to map[string]interface{}"
        (get_field "kubernetes.io" claims))
  account ← lift (
      as_object "failed to assert serviceaccount claim to map[string]interface{}"
        (get_field "serviceaccount" kubernetes))
  namespace ←
      lift (as_text "failed to assert namespace to string" (get_field "namespace" kubernetes))
  name ← lift (as_text "failed to assert service account name to string" (get_field "name" account))
  pure (name, namespace)

module _ (W : World) (p : Process) where
  unfoldable pub get_service_account_and_namespace : String → Action (String × String)
  get_service_account_and_namespace path = do
    r ← read_file W path
    token ← lift (need (λ e. "failed to read service account token: " <> file_message e) r)
    parsed ← lift (need (λ e. "failed to parse token: " <> e) (p.parse_unverified token))
    account_of_claims parsed

  -- The package variables after the set-up; an error of the service account is logged, and leaves
  -- both names empty.
  unfoldable pub setup_with_manager : String → List String → Action Config
  setup_with_manager private_key_cache token_path = do
    account ←
        on_error (get_service_account_and_namespace (token_path_or_default token_path))
          (λ e. pure ("", ""))
    lift (no_error (λ e. e) p.complete)
    pure (record {
      reconcile_interval =
          duration_or default_requeue_after (p.parse_duration (p.getenv "CHECK_INTERVAL"));
      time_before_expiry =
          duration_or default_time_before_expiry (p.parse_duration (p.getenv "EXPIRY_THRESHOLD"));
      vault_audience = p.getenv "VAULT_ROLE_AUDIENCE";
      vault_role = p.getenv "VAULT_ROLE";
      service_account_name = account.0;
      kubernetes_namespace = account.1;
      private_key_cache_path = private_key_cache;
    })
