-- ===== src/Controller/Rollout.antt =====
-- rolloutDeployment of internal/controller/githubapp_controller.go.
pub mod Laws
pub mod Safety
use github_app_operator.Base.{String, ◌<>◌, Option, none, some, List, [], ◌∷◌, Map, insert}
use github_app_operator.Api.Types.{Deployment, RolloutDeploymentSpec}
use github_app_operator.World.{World, Event, api_message}
use github_app_operator.World.Action.{Action, pure, lift, current_app, no_error, need, ◌>>=◌, ◌>>◌}
use github_app_operator.World.Calls.{list_deployments, update_deployment, read_clock, record_event}
use github_app_operator.Controller.PrivateKey.{deref}

abbrev pub stamp_label : String
stamp_label = "ghApplastUpdateTime"

-- A write to the map of template labels; to a nil map it panics.
abbrev pub stamped : String → Deployment → Map String → Deployment
stamped stamp d labels = record d { template_labels = some (insert stamp_label stamp labels) }

-- <namespace>/<name>
abbrev pub full_name : String → String → String
full_name namespace name = namespace <> "/" <> name

abbrev pub normal_event : String → String → Event
normal_event reason message = record { kind = "Normal"; reason = reason; message = message }

abbrev pub warning_event : String → String → Event
warning_event reason message = record { kind = "Warning"; reason = reason; message = message }

abbrev pub rollout_labels : Option RolloutDeploymentSpec → Map String
rollout_labels none = []
rollout_labels (some r) = r.labels

module _ (W : World) where
  -- One deployment of the list.
  unfoldable pub upgrade : Deployment → Action (Unit {0})
  upgrade d = do
    now ← read_clock W
    labels ← lift (deref d.template_labels)
    e ← update_deployment W (stamped (W.format_time now) d labels)
    let name = full_name d.meta.namespace d.meta.name
    lift (no_error (λ x. "failed to upgrade deployment " <> name <> ": " <> api_message x) e)
    record_event (normal_event "Updated" ("Updated deployment " <> name))

  unfoldable pub upgrade_all : List Deployment → Action (Unit {0})
  upgrade_all [] = pure tt
  upgrade_all (d ∷ ds) = upgrade d >> upgrade_all ds

  -- One label of the map.
  unfoldable pub upgrade_labelled : String → String → Action (Unit {0})
  upgrade_labelled key value = do
    a ← current_app
    r ← list_deployments W a.meta.namespace key value
    ds ← lift (
        need
          (λ x.
            "failed to list Deployments with label "
            <> key
            <> "="
            <> value
            <> ": "
            <> api_message x)
          r)
    upgrade_all ds

  unfoldable pub upgrade_for_labels : Map String → Action (Unit {0})
  upgrade_for_labels [] = pure tt
  upgrade_for_labels ((key, value) ∷ labels) =
      upgrade_labelled key value >> upgrade_for_labels labels

  -- The labels come in the order of the iteration over the map. With no rolloutDeployment, or no
  -- label, there is nothing to do.
  unfoldable pub rollout_deployment : Action (Unit {0})
  rollout_deployment = do
    a ← current_app
    upgrade_for_labels (rollout_labels a.spec.rollout_deployment)
