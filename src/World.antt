-- ===== src/World.antt =====
-- What lies outside the program: the Kubernetes API, the file system, the clock, GitHub, Vault and
-- GCP Secret Manager, as functions from what the program has done so far to their answers.
--
-- A `Trace` holds every call that leaves the program, the newest first. A `World` answers a call
-- from the trace before it, so its answers may vary from call to call in any way. Functions of
-- third-party packages that compute a value without input or output are fields with no trace.
pub mod Action
pub mod Calls
pub mod Since
pub mod Invert
use github_app_operator.Base.{ℕ, String, Option, List, Map, ◌<>◌}
use github_app_operator.Base.Int.{ℤ}
use github_app_operator.Api.Types.{Time, Duration, Bytes, GithubApp, Secret, Deployment, ObjectKey}

-- An error of the Kubernetes client, by what apierrors.IsNotFound and apierrors.IsConflict say.
pub data ApiError : Type 0 where
  not_found conflict other_failure : String → ApiError

abbrev pub api_message : ApiError → String
api_message (not_found e) = e
api_message (conflict e) = e
api_message (other_failure e) = e

-- An error of package os, by what os.IsNotExist says.
pub data FileError : Type 0 where
  not_exist other_file_error : String → FileError

abbrev pub file_message : FileError → String
file_message (not_exist e) = e
file_message (other_file_error e) = e

-- A Go result pair (value, error): one or the other.
pub data Reply (E A : Type 0) : Type 0 where
  good : A → Reply E A
  bad : E → Reply E A

-- What the source reads of an http.Response. The body is decoded by `World`.
pub record HttpResponse : Type 0 where
  pub status_code : ℕ
  pub retry_after : String
  pub body : Bytes

-- The two requests to GitHub, with what varies: the installation and the signed JWT of
-- POST /app/installations/<id>/access_tokens, and the token of GET /rate_limit.
pub data HttpRequest : Type 0 where
  post_access_tokens : String → String → HttpRequest
  get_rate_limit : String → HttpRequest

-- Struct Response: the body of a granted access token.
pub record Response : Type 0 where
  pub token : String
  pub expires_at : Time

-- Struct RateLimitInfo, as its one number Resources.Core.Remaining.
pub record RateLimitInfo : Type 0 where
  pub remaining : ℤ

-- jwt.RegisteredClaims, as generateAccessToken fills them in.
pub record RegisteredClaims : Type 0 where
  pub issuer : String
  pub issued_at : Time
  pub expires_at : Time

-- An authentication.k8s.io TokenRequest for a service account.
pub record TokenRequest : Type 0 where
  pub audiences : List String
  pub expiration_seconds : ℤ
  pub namespace : String
  pub service_account : String

-- A value of the map[string]interface{} of a Vault secret: a string, or something else.
pub data VaultValue : Type 0 where
  text : String → VaultValue
  not_text : VaultValue

-- The payload of a GCP secret version; DataCrc32C is a pointer to an int64.
pub record Payload : Type 0 where
  pub bytes : Bytes
  pub data_crc32c : Option ℤ

-- A Kubernetes event: type, reason, message.
pub record Event : Type 0 where
  pub kind : String
  pub reason : String
  pub message : String

pub data Call : Type 0 where
  get_app : ObjectKey → Call
  get_secret : ObjectKey → Call
  list_secrets : String → Call
  delete_secret : Secret → Call
  create_secret : Secret → Call
  update_secret : Secret → Call
  update_status : GithubApp → Call
  list_deployments : String → String → String → Call
  update_deployment : Deployment → Call
  record_event : Event → Call
  create_token : TokenRequest → Call
  stat : String → Call
  mkdir_all : String → Call
  read_file : String → Call
  write_file : String → Bytes → Call
  remove_file : String → Call
  read_clock : Call
  sleep : Duration → Call
  rand_intn : ℕ → Call
  http_do : HttpRequest → Call
  vault_login : String → String → Call
  vault_get : String → String → Call
  gcp_new_client : Call
  gcp_access : String → Call
  gcp_close : Call

abbrev pub Trace : Type 0
Trace = List Call

pub record World : Type 0 where
  -- controller-runtime's client. A failed Get of a GithubApp leaves an object behind, too.
  pub get_app : Trace → ObjectKey → Option ApiError × GithubApp
  pub get_secret : Trace → ObjectKey → Reply ApiError Secret
  pub list_secrets : Trace → String → Reply ApiError (List Secret)
  pub delete_secret : Trace → Secret → Option ApiError
  pub create_secret : Trace → Secret → Option ApiError
  pub update_secret : Trace → Secret → Option ApiError
  -- Status().Update writes the server's object back into its argument.
  pub update_status : Trace → GithubApp → Reply ApiError GithubApp
  pub list_deployments : Trace → String → String → String → Reply ApiError (List Deployment)
  pub update_deployment : Trace → Deployment → Option ApiError
  pub set_controller_reference : GithubApp → Secret → Reply String Secret
  pub create_token : Trace → TokenRequest → Reply String String
  -- packages os and path/filepath
  pub stat : Trace → String → Option FileError
  pub mkdir_all : Trace → String → Option FileError
  pub read_file : Trace → String → Reply FileError Bytes
  pub write_file : Trace → String → Bytes → Option FileError
  pub remove_file : Trace → String → Option FileError
  pub join : List String → String
  -- packages time, math/rand, strconv and fmt
  pub now : Trace → Time
  pub format_time : Time → String
  pub intn : Trace → ℕ → ℕ
  pub atoi : String → Option ℤ
  pub itoa : ℤ → String
  -- GitHub over HTTP, JSON and JWT
  pub http_do : Trace → HttpRequest → Reply String HttpResponse
  pub decode_response : Bytes → Reply String Response
  pub decode_rate_limit : Bytes → Reply String RateLimitInfo
  pub sign_jwt : Bytes → RegisteredClaims → Reply String String
  pub parse_rsa_key : Bytes → Option String
  -- Vault; `none` is the nil auth info
  pub vault_address : String
  pub new_kubernetes_auth : String → String → Option String
  pub vault_login : Trace → String → String → Reply String (Option String)
  pub vault_get : Trace → String → String → Reply String (Map VaultValue)
  -- GCP Secret Manager
  pub gcp_new_client : Trace → Option String
  pub gcp_access : Trace → String → Reply String Payload
  pub checksum : Bytes → ℤ
  pub base64_decode : String → Reply String Bytes
