-- ===== src/Api/Webhook.antt =====
-- api/v1/githubapp_webhook.go: a GithubApp names exactly one source for its private key.
-- The warnings that the three methods return are always nil, and are left out.
pub mod Laws
use github_app_operator.Base.{
  ℕ, ◌+◌, ◌≡◌, ◌≢◌, String, Option, none, some, str_eq, ◌==◌, if◌then◌else◌,
}
use github_app_operator.Api.Types.{GithubApp, GithubAppSpec}

abbrev pub one_source_message : String
one_source_message =
    "exactly one of googlePrivateKeySecret, privateKeySecret, or vaultPrivateKey must be specified"

abbrev count_vault {ℓ} : {A : Type ℓ} → Option A → ℕ → ℕ
count_vault none count = count
count_vault (some v) count = count + 1

-- `none` is the nil error.
pub validate_github_app_spec : GithubApp → Option String
validate_github_app_spec r =
    let count : ℕ = 0 in
    let count : ℕ = if str_eq r.spec.gcp_private_key_secret "" then count else count + 1 in
    let count : ℕ = if str_eq r.spec.private_key_secret "" then count else count + 1 in
    let count : ℕ = count_vault r.spec.vault_private_key count in
    if count == 1 then none else some one_source_message

pub validate_create : GithubApp → Option String
validate_create r = elim (validate_github_app_spec r) [ none ↦ none | some e ↦ some e ]

pub validate_update : GithubApp → GithubApp → Option String
validate_update old r = elim (validate_github_app_spec r) [ none ↦ none | some e ↦ some e ]

pub validate_delete : GithubApp → Option String
validate_delete r = none

-- The sources, told apart by which one is set.
pub data KeySource (s : GithubAppSpec) : Type 0 where
  from_gcp :
      s.gcp_private_key_secret ≢ ""
      → s.private_key_secret ≡ ""
      → s.vault_private_key ≡ none
      → KeySource s
  from_kubernetes :
      s.gcp_private_key_secret ≡ ""
      → s.private_key_secret ≢ ""
      → s.vault_private_key ≡ none
      → KeySource s
  from_vault :
      s.gcp_private_key_secret ≡ ""
      → s.private_key_secret ≡ ""
      → s.vault_private_key ≢ none
      → KeySource s
