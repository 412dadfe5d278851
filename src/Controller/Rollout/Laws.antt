-- ===== src/Controller/Rollout/Laws.antt =====
-- What a successful rolloutDeployment has restarted.
use github_app_operator.Base.{
  String, ◌≡◌, ap, ◌∙◌, subst, Option, none, some, List, [], ◌∷◌, Map, All,
}
use github_app_operator.Api.Types.{GithubApp, Deployment}
use github_app_operator.World.{World, Call, Trace, good}
use github_app_operator.World.Action.{State, ok, current_app, ◌>>=◌}
use github_app_operator.World.Calls.{perform}
use github_app_operator.World.Invert.{bind-ok, lift-ok, pure-ok, need-ok, no_error-ok}
use github_app_operator.Controller.PrivateKey.{deref}
use github_app_operator.Controller.Rollout.{
  stamped, rollout_labels, upgrade, upgrade_all, upgrade_labelled, upgrade_for_labels,
  rollout_deployment,
}

-- The API server took the deployment with the time of an instant as its template label.
pub record Upgraded (W : World) (d : Deployment) : Type 0 where
  pub clock : Trace
  pub before : Trace
  pub labels : Map String
  pub labelled : d.template_labels ≡ some labels
  pub taken : W.update_deployment before (stamped (W.format_time (W.now clock)) d labels) ≡ none

-- The deployments with a label of the GithubApp were listed, and each was upgraded.
pub record RolledOut (W : World) (namespace : String) (label : String × String) : Type 0 where
  pub before : Trace
  pub deployments : List Deployment
  pub listed : W.list_deployments before namespace label.0 label.1 ≡ good deployments
  pub upgraded : All (Upgraded W) deployments

perform-kept :
    {A : Type 0} (c : Call) (answer : Trace → A) (s : State) {a : A} {u : State}
    → perform c answer s ≡ (ok a, u)
    → (answer s.trace ≡ a) × (u.app ≡ s.app)
unfolding perform
perform-kept c answer s {a} {u} h =
    let after : u ≡ record s { trace = c ∷ s.trace } = cc in (cc, ap (λ (x : State). x.app) after)

pub deref-ok : {A : Type 0} (r : Option A) {a : A} → deref r ≡ ok a → r ≡ some a
deref-ok none h = cc
deref-ok (some b) h = cc

kept : {s u : State} → u ≡ s → u.app ≡ s.app
kept h = ap (λ (x : State). x.app) h

current_app-ok :
    (s : State) {a : GithubApp} {u : State} → current_app s ≡ (ok a, u) → (s.app ≡ a) × (u ≡ s)
unfolding current_app
current_app-ok s h = (cc, cc)

module _ (W : World) where
  upgrade-ok :
      (d : Deployment) (s : State) {u : State}
      → upgrade W d s ≡ (ok tt, u)
      → Upgraded W d × (u.app ≡ s.app)
  unfolding upgrade
  upgrade-ok d s h =
      let (now, s₁, e₁, h₁) = bind-ok _ _ s h in
      let (labels, s₂, e₂, h₂) = bind-ok _ _ s₁ h₁ in
      let (r, s₃, e₃, h₃) = bind-ok _ _ s₂ h₂ in
      let (y, s₄, e₄, h₄) = bind-ok _ _ s₃ h₃ in
      let (read, p₁) = perform-kept _ _ s e₁ in
      let (held, p₂) = lift-ok _ s₁ e₂ in
      let (sent, p₃) = perform-kept _ _ s₂ e₃ in
      let (took, p₄) = lift-ok _ s₃ e₄ in
      let (noted, p₅) = perform-kept _ _ s₄ h₄ in
      (
        record {
          clock = s.trace;
          before = s₂.trace;
          labels = labels;
          labelled = deref-ok _ held;
          taken =
              ap (λ n. W.update_deployment s₂.trace (stamped (W.format_time n) d labels)) read
              ∙ sent
              ∙ no_error-ok _ r took;
        },
        p₅ ∙ kept p₄ ∙ p₃ ∙ kept p₂ ∙ p₁,
      )

  upgrade_all-ok :
      (ds : List Deployment) (s : State) {u : State}
      → upgrade_all W ds s ≡ (ok tt, u)
      → All (Upgraded W) ds × (u.app ≡ s.app)
  unfolding upgrade_all
  upgrade_all-ok [] s h = (tt, kept (pure-ok _ s h).1)
  upgrade_all-ok (d ∷ ds) s h =
      let (x, s₁, e₁, h₁) = bind-ok _ _ s h in
      let (first, p) = upgrade-ok d s e₁ in
      let (rest, q) = upgrade_all-ok ds s₁ h₁ in ((first, rest), q ∙ p)

  upgrade_labelled-ok :
      (key value : String) (s : State) {u : State}
      → upgrade_labelled W key value s ≡ (ok tt, u)
      → RolledOut W s.app.meta.namespace (key, value) × (u.app ≡ s.app)
  unfolding upgrade_labelled
  upgrade_labelled-ok key value s h =
      let (a, s₁, e₁, h₁) = bind-ok _ _ s h in
      let (r, s₂, e₂, h₂) = bind-ok _ _ s₁ h₁ in
      let (ds, s₃, e₃, h₃) = bind-ok _ _ s₂ h₂ in
      let (same, p₁) = current_app-ok s e₁ in
      let (answered, p₂) = perform-kept _ _ s₁ e₂ in
      let (listed, p₃) = lift-ok _ s₂ e₃ in
      let (all, p₄) = upgrade_all-ok ds s₃ h₃ in
      (
        record {
          before = s₁.trace;
          deployments = ds;
          listed =
              ap (λ (b : GithubApp). W.list_deployments s₁.trace b.meta.namespace key value) same
              ∙ answered
              ∙ need-ok _ r listed;
          upgraded = all;
        },
        p₄ ∙ kept p₃ ∙ p₂ ∙ kept p₁,
      )

  upgrade_for_labels-ok :
      (labels : Map String) (s : State) {u : State}
      → upgrade_for_labels W labels s ≡ (ok tt, u)
      → All (RolledOut W s.app.meta.namespace) labels × (u.app ≡ s.app)
  unfolding upgrade_for_labels
  upgrade_for_labels-ok [] s h = (tt, kept (pure-ok _ s h).1)
  upgrade_for_labels-ok ((key, value) ∷ labels) s h =
      let (x, s₁, e₁, h₁) = bind-ok _ _ s h in
      let (first, p) = upgrade_labelled-ok key value s e₁ in
      let (rest, q) = upgrade_for_labels-ok labels s₁ h₁ in
      ((first, subst (λ (b : GithubApp). All (RolledOut W b.meta.namespace) labels) p rest), q ∙ p)

  -- A rollout that succeeds has listed the deployments of the namespace for each label that the
  -- GithubApp names, and the API server has taken each of them with a new time as the value of its
  -- template label; the GithubApp is left as it was.
  pub rollout_deployment-RolledOut :
      (s : State) {u : State}
      → rollout_deployment W s ≡ (ok tt, u)
      → All (RolledOut W s.app.meta.namespace) (rollout_labels s.app.spec.rollout_deployment)
        × (u.app ≡ s.app)
  unfolding rollout_deployment ◌>>=◌ current_app
  rollout_deployment-RolledOut s h =
      upgrade_for_labels-ok (rollout_labels s.app.spec.rollout_deployment) s h
