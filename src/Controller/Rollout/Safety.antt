-- ===== src/Controller/Rollout/Safety.antt =====
-- The calls of rolloutDeployment (internal/controller/githubapp_controller.go).
use github_app_operator.Base.{String, ◌≡◌, ◌⊎◌, inl, inr, refl, ◌∙◌, some, List, [], ◌∷◌, Map}
use github_app_operator.Api.Types.{Deployment}
use github_app_operator.World.{World, Call, Trace, Event, good}
use github_app_operator.World.Action.{Action}
use github_app_operator.World.Since.{
  Keeps, Keeps-pure, Keeps-lift, Keeps-bind, Keeps-bind-value, Keeps-current_app, Keeps-perform,
  Only, only_rules,
}
use github_app_operator.World.Invert.{lift-ok, need-ok, perform-ok}
use github_app_operator.Controller.Rollout.{
  stamped, upgrade, upgrade_all, upgrade_labelled, upgrade_for_labels, rollout_deployment,
}
use github_app_operator.Controller.Rollout.Laws.{deref-ok}

abbrev pub Among : Deployment → List Deployment → Type 0
Among d [] = ⊥
Among d (e ∷ ds) = (d ≡ e) ⊎ Among d ds

-- The deployment x is one that a list gave, with nothing changed but one template label.
pub record Restamped (W : World) (x : Deployment) : Type 0 where
  pub before : Trace
  pub namespace : String
  pub key : String
  pub value : String
  pub deployments : List Deployment
  pub listed : W.list_deployments before namespace key value ≡ good deployments
  pub deployment : Deployment
  pub among : Among deployment deployments
  pub labels : Map String
  pub labelled : deployment.template_labels ≡ some labels
  pub stamp : String
  pub same : x ≡ stamped stamp deployment labels

module _ (W : World) (P : Call → Type 0) (t₀ : Trace) (clock : P Call.read_clock)
    (lists : (n k v : String) → P (Call.list_deployments n k v))
    (updates : (x : Deployment) → Restamped W x → P (Call.update_deployment x))
    (events : (e : Event) → P (Call.record_event e)) where
  abbrev Safe : {A : Type 0} → Action A → Type 0
  Safe m = Keeps (Only P t₀) m

  module _ (before : Trace) (namespace key value : String) (ds : List Deployment)
      (listed : W.list_deployments before namespace key value ≡ good ds) where
    upgrade-Safe : (d : Deployment) → Among d ds → Safe (upgrade W d)
    unfolding upgrade
    upgrade-Safe d among = Keeps-bind _ _ (Keeps-perform _ _ clock) λ now.
        Keeps-bind-value _ _ (Keeps-lift _) λ s labels u e.
          Keeps-bind _ _
            (Keeps-perform _ _ (
              updates _ (record {
                before = before;
                namespace = namespace;
                key = key;
                value = value;
                deployments = ds;
                listed = listed;
                deployment = d;
                among = among;
                labels = labels;
                labelled = deref-ok _ (lift-ok _ s e).0;
                stamp = W.format_time now;
                same = refl;
              })))
            λ r. search (only_rules, events) depth 8

    upgrade_all-Safe :
        (xs : List Deployment)
        → ((d : Deployment) → Among d xs → Among d ds)
        → Safe (upgrade_all W xs)
    unfolding upgrade_all
    upgrade_all-Safe [] sub = Keeps-pure tt
    upgrade_all-Safe (d ∷ xs) sub =
        Keeps-bind _ _ (upgrade-Safe d (sub d (inl refl)))
          (λ u. upgrade_all-Safe xs (λ e m. sub e (inr m)))

  upgrade_labelled-Safe : (key value : String) → Safe (upgrade_labelled W key value)
  unfolding upgrade_labelled
  upgrade_labelled-Safe key value = Keeps-bind _ _ Keeps-current_app λ a.
      Keeps-bind-value _ _ (Keeps-perform _ _ (lists _ _ _)) λ s r u e.
        Keeps-bind-value _ _ (Keeps-lift _) λ v ds w k.
          upgrade_all-Safe s.trace a.meta.namespace key value ds
            (perform-ok _ _ s e ∙ need-ok _ r (lift-ok _ v k).0) ds (λ d m. m)

  upgrade_for_labels-Safe : (labels : Map String) → Safe (upgrade_for_labels W labels)
  unfolding upgrade_for_labels
  upgrade_for_labels-Safe [] = Keeps-pure tt
  upgrade_for_labels-Safe ((key, value) ∷ labels) =
      Keeps-bind _ _ (upgrade_labelled-Safe key value) (λ u. upgrade_for_labels-Safe labels)

  pub rollout_deployment-Safe : Safe (rollout_deployment W)
  unfolding rollout_deployment
  rollout_deployment-Safe = search (only_rules, upgrade_for_labels-Safe) depth 8
