-- ===== src/Api/Types.antt =====
-- api/v1/githubapp_types.go, and what the controller reads of the Kubernetes objects that it
-- handles. TypeMeta, and the metadata fields that the source never names, are left out.
use github_app_operator.Base.{ℕ, String, Option, none, List, [], Map}
use github_app_operator.Base.Int.{ℤ, pos}

-- An instant, in nanoseconds after Go's zero time; `IsZero` is the test for 0.
abbrev pub Time : Type 0
Time = ℕ

-- A time.Duration: an int64 of nanoseconds.
abbrev pub Duration : Type 0
Duration = ℤ

-- A []byte. The source only copies it, tests it for emptiness and converts it to a string.
abbrev pub Bytes : Type 0
Bytes = String

pub record OwnerReference : Type 0 where
  pub kind : String
  pub name : String

pub record ObjectMeta : Type 0 where
  pub name : String
  pub namespace : String
  pub resource_version : String
  pub deletion_timestamp : Option Time
  pub owner_references : List OwnerReference

-- The zero value of metav1.ObjectMeta.
abbrev pub no_meta : ObjectMeta
no_meta = record {
  name = "";
  namespace = "";
  resource_version = "";
  deletion_timestamp = none;
  owner_references = [];
}

pub record RolloutDeploymentSpec : Type 0 where
  pub labels : Map String

pub record VaultPrivateKeySpec : Type 0 where
  pub mount_path : String
  pub secret_path : String
  pub secret_key : String

pub record GithubAppSpec : Type 0 where
  pub app_id : ℤ
  pub install_id : ℤ
  pub private_key_secret : String
  pub rollout_deployment : Option RolloutDeploymentSpec
  pub vault_private_key : Option VaultPrivateKeySpec
  pub access_token_secret : String
  pub gcp_private_key_secret : String

pub record GithubAppStatus : Type 0 where
  pub expires_at : Time
  pub error : String

pub record GithubApp : Type 0 where
  pub meta : ObjectMeta
  pub spec : GithubAppSpec
  pub status : GithubAppStatus

-- `&githubappv1.GithubApp{}`
abbrev pub blank_app : GithubApp
blank_app = record {
  meta = no_meta;
  spec = record {
    app_id = pos 0;
    install_id = pos 0;
    private_key_secret = "";
    rollout_deployment = none;
    vault_private_key = none;
    access_token_secret = "";
    gcp_private_key_secret = "";
  };
  status = record { expires_at = 0; error = "" };
}

-- A corev1.Secret; `contents` is its field Data.
pub record Secret : Type 0 where
  pub meta : ObjectMeta
  pub contents : Map Bytes
  pub string_data : Map String

-- What rolloutDeployment reads and writes of an appsv1.Deployment. `template_labels` is the map
-- Spec.Template.ObjectMeta.Labels, `none` for a nil map.
pub record Deployment : Type 0 where
  pub meta : ObjectMeta
  pub template_labels : Option (Map String)

-- client.ObjectKey and types.NamespacedName
pub record ObjectKey : Type 0 where
  pub namespace : String
  pub name : String
