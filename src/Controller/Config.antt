-- ===== src/Controller/Config.antt =====
-- The package variables of internal/controller/githubapp_controller.go.
use github_app_operator.Base.{String, ℕ}
use github_app_operator.Api.Types.{Duration}

pub record Config : Type 0 where
  pub reconcile_interval : Duration
  pub time_before_expiry : Duration
  pub vault_audience : String
  pub vault_role : String
  pub service_account_name : String
  pub kubernetes_namespace : String
  pub private_key_cache_path : String

abbrev pub git_username : String
git_username = "not-used"

-- time.Second and time.Millisecond, in nanoseconds
abbrev pub second : ℕ
second = 1000000000

abbrev pub millisecond : ℕ
millisecond = 1000000
