-- ===== src/Tests/Sources.antt =====
-- The theorems on the set-up, Vault, GCP Secret Manager and the rollout at concrete data.
use github_app_operator.Base.{String, ◌≡◌, refl, ◌↔◌, none, some, [], ◌∷◌, All}
use github_app_operator.Api.Types.{Deployment, no_meta}
use github_app_operator.World.{World, good, bad}
use github_app_operator.World.Action.{State, ok, pure, lift, finally, current_app, ◌>>=◌}
use github_app_operator.World.Calls.{perform}
use github_app_operator.Controller.Config.{Config}
use github_app_operator.Controller.Vault.{get_private_key_from_vault}
use github_app_operator.Controller.Vault.Laws.{FromVault, get_private_key_from_vault-FromVault}
use github_app_operator.Controller.Gcp.{get_secret_from_secret_mgr}
use github_app_operator.Controller.Gcp.Laws.{
  Verified, closed_access, get_secret_from_secret_mgr-Verified,
  get_secret_from_secret_mgr-closed_access,
}
use github_app_operator.Controller.Rollout.{
  upgrade, upgrade_all, upgrade_labelled, upgrade_for_labels, rollout_deployment,
}
use github_app_operator.Controller.Rollout.Laws.{RolledOut, rollout_deployment-RolledOut}
use github_app_operator.Controller.Setup.{
  Fields, end, field, text, object, Process, account_of_claims, get_service_account_and_namespace,
}
use github_app_operator.Controller.Setup.Laws.{
  Holds, account_of_claims-Holds, Account, get_service_account_and_namespace-Account,
}
use github_app_operator.Tests.Setting.{app, config, start, calm}

vault_key :
    get_private_key_from_vault calm config "kv" "apps/one" "key" start
    ≡ (ok "PEM", (get_private_key_from_vault calm config "kv" "apps/one" "key" start).1)
unfolding get_private_key_from_vault ◌>>=◌ lift perform
vault_key = refl

get_private_key_from_vault-FromVault_example : FromVault calm config "kv" "apps/one" "key" "PEM"
get_private_key_from_vault-FromVault_example =
    get_private_key_from_vault-FromVault calm config "kv" "apps/one" "key" start vault_key

abbrev version : String
version = "projects/p/secrets/key/versions/1"

gcp_key :
    get_secret_from_secret_mgr calm version start
    ≡ (ok "PEM", (get_secret_from_secret_mgr calm version start).1)
unfolding get_secret_from_secret_mgr ◌>>=◌ lift perform finally
gcp_key = refl

get_secret_from_secret_mgr-Verified_example : Verified calm version "PEM"
get_secret_from_secret_mgr-Verified_example =
    get_secret_from_secret_mgr-Verified calm version start gcp_key

get_secret_from_secret_mgr-closed_access_example :
    (get_secret_from_secret_mgr calm version start).1.trace ≡ closed_access calm version start
get_secret_from_secret_mgr-closed_access_example =
    get_secret_from_secret_mgr-closed_access calm version start refl

abbrev rolled : State
rolled = record start {
  app = record app {
    spec = record app.spec { rollout_deployment = some (record { labels = ("app", "web") ∷ [] }) };
  };
}

abbrev web : Deployment
web = record {
  meta = record no_meta { name = "web"; namespace = "team" };
  template_labels = some (("app", "web") ∷ []);
}

abbrev serving : World
serving = record calm { list_deployments = λ t n k v. good (web ∷ []) }

rolls_out : rollout_deployment serving rolled ≡ (ok tt, (rollout_deployment serving rolled).1)
unfolding rollout_deployment upgrade_for_labels upgrade_labelled upgrade_all upgrade ◌>>=◌ pure lift
    current_app perform
rolls_out = refl

rollout_deployment-RolledOut_example :
    All (RolledOut serving "team") (("app", "web") ∷ [])
    × ((rollout_deployment serving rolled).1.app ≡ rolled.app)
rollout_deployment-RolledOut_example = rollout_deployment-RolledOut serving rolled rolls_out

abbrev claims : Fields
claims =
    field "kubernetes.io"
      (object (
        field "namespace" (text "system")
          (field "serviceaccount" (object (field "name" (text "manager") end)) end)))
      end

abbrev process : Process
process = record {
  getenv = λ k. "";
  parse_duration = λ d. bad "invalid duration";
  parse_unverified = λ t. good (some claims);
  complete = none;
}

account_of_claims-Holds_example :
    (account_of_claims (some claims) start ≡ (ok ("manager", "system"), start))
    ↔ Holds claims "manager" "system"
account_of_claims-Holds_example = account_of_claims-Holds claims start "manager" "system"

account :
    get_service_account_and_namespace calm process "token" start
    ≡ (ok ("manager", "system"), (get_service_account_and_namespace calm process "token" start).1)
unfolding get_service_account_and_namespace account_of_claims ◌>>=◌ pure lift perform
account = refl

get_service_account_and_namespace-Account_example :
    Account calm process "token" start "manager" "system"
get_service_account_and_namespace-Account_example =
    get_service_account_and_namespace-Account calm process "token" start account
