-- ===== src/Controller/Reconcile/Runs.antt =====
-- Reconcile of internal/controller/githubapp_controller.go, call after call: what the controller
-- may do over its whole life. The mutex lets one call end before the next begins.
use github_app_operator.Base.{String, ◌≡◌, refl, ◌≢◌, true, Option, none, some, [], ◌∷◌}
use github_app_operator.Api.Types.{Time, GithubApp, Secret, ObjectKey}
use github_app_operator.World.{
  World, Call, Trace, Reply, good, bad, ApiError, not_found, conflict, other_failure,
}
use github_app_operator.World.Action.{Action, State}
use github_app_operator.World.Since.{
  Since, no_more, Since-mono, Since-trans, Keeps, Keeps-halt, Only, Fixed, fixed_rules, only_rules,
}
use github_app_operator.Controller.Config.{Config}
use github_app_operator.Controller.Cache.{key_path}
use github_app_operator.Controller.Retry.Safety.{with_retries_safe}
use github_app_operator.Controller.Validity.{is_access_token_valid}
use github_app_operator.Controller.Rollout.Safety.{Restamped}
use github_app_operator.Controller.AccessToken.{
  token_data, new_secret, ignore_error, create_or_update_access_token,
}
use github_app_operator.Controller.AccessToken.Safety.{
  TokenCall, create_or_update_access_token-TokenCall,
}
use github_app_operator.Controller.Status.{set_error, update_status_with_error}
use github_app_operator.Controller.Expiry.{
  has_expired, renew_near_expiry, check_token, check_secret, check_stored_token,
  check_expiry_and_update_access_token,
}
use github_app_operator.Controller.Owned.Laws.{is_owned}
use github_app_operator.Controller.Reconcile.{
  clean_up, report_failure, clear_error, refresh, after_get, reconcile,
}
use github_app_operator.Controller.Reconcile.CleanUp.{CleanUpCall, clean_up-Safe}

-- What the operator may do to secrets and files, for whichever GithubApp. A secret is created only
-- as the new token secret of a GithubApp that owns it; an update leaves nothing in a secret but
-- a token and the fixed username; a secret is deleted only if it names a GithubApp as an owner; a
-- file is written only at the path of a cached key, and never empty; only such a file is removed;
-- and a deployment is updated as it was listed, but for one template label.
pub OperatorCall : World → Config → Call → Type 0
OperatorCall W c (Call.create_secret x) =
    (a : GithubApp) × (token : String) × (W.set_controller_reference a
        (new_secret a a.spec.access_token_secret token)
      ≡ good x)
OperatorCall W c (Call.update_secret x) =
    (token : String) × (x.contents ≡ []) × (x.string_data ≡ token_data token)
OperatorCall W c (Call.delete_secret x) =
    (name : String) × (is_owned name x.meta.owner_references ≡ true)
OperatorCall W c (Call.write_file p key) =
    (namespace : String) × (name : String) × (p ≡ key_path W c namespace name) × (key ≢ "")
OperatorCall W c (Call.remove_file p) =
    (namespace : String) × (name : String) × (p
      ≡ W.join (c.private_key_cache_path ∷ namespace ∷ name ∷ []))
OperatorCall W c (Call.update_deployment x) = Restamped W x
OperatorCall W c _ = Unit

module _ (W : World) (c : Config) where
  TokenCall-OperatorCall : (a : GithubApp) (x : Call) → TokenCall W c a x → OperatorCall W c x
  unfolding TokenCall OperatorCall
  TokenCall-OperatorCall a (Call.create_secret x) (token, h) = (a, token, h)
  TokenCall-OperatorCall a (Call.update_secret x) (t, old, owned, token, g, o, e) =
      (token, rw e refl, rw e refl)
  TokenCall-OperatorCall a (Call.delete_secret x) h = absurd h
  TokenCall-OperatorCall a (Call.write_file p key) (h, n) = (a.meta.namespace, a.meta.name, h, n)
  TokenCall-OperatorCall a (Call.remove_file p) h = (a.meta.namespace, a.meta.name, h)
  TokenCall-OperatorCall a (Call.update_deployment x) h = h
  TokenCall-OperatorCall a _ h = tt

  CleanUpCall-OperatorCall :
      (req : ObjectKey) (a : GithubApp) (x : Call) → CleanUpCall W c req a x → OperatorCall W c x
  unfolding CleanUpCall OperatorCall
  CleanUpCall-OperatorCall req a (Call.create_secret x) h = absurd h
  CleanUpCall-OperatorCall req a (Call.update_secret x) h = absurd h
  CleanUpCall-OperatorCall req a (Call.delete_secret x) h = (a.meta.name, h)
  CleanUpCall-OperatorCall req a (Call.write_file p key) h = absurd h
  CleanUpCall-OperatorCall req a (Call.remove_file p) h = (req.namespace, req.name, h)
  CleanUpCall-OperatorCall req a (Call.update_deployment x) h = absurd h
  CleanUpCall-OperatorCall req a _ h = tt

  module _ (t₀ : Trace) where
    abbrev Lawful : {A : Type 0} → Action A → Type 0
    Lawful m = Keeps (Only (OperatorCall W c) t₀) m

    by_calls :
        {A : Type 0} (m : Action A)
        → ((s : State) → Since (OperatorCall W c) s.trace (m s).1.trace)
        → Lawful m
    by_calls m h = record { at = λ s k. Since-trans k (h s) }

    renew-Lawful : Lawful (create_or_update_access_token W c)
    renew-Lawful = by_calls _ λ s.
        Since-mono (TokenCall-OperatorCall s.app) (create_or_update_access_token-TokenCall W c s)

    clean_up-Lawful : (req : ObjectKey) → Lawful (clean_up W c req)
    clean_up-Lawful req = by_calls _ λ s.
        Since-mono (CleanUpCall-OperatorCall req s.app)
          ((clean_up-Safe W c req s.app s.trace).at s (refl, no_more)).1

    valid-Lawful : (username token : String) → Lawful (is_access_token_valid W username token)
    unfolding is_access_token_valid OperatorCall
    valid-Lawful username token = by_calls _ λ s.
        let kept : Keeps (Fixed s.app (OperatorCall W c) s.trace)
            (is_access_token_valid W username token) =
          search (fixed_rules, with_retries_safe, tt) depth 10 in
        (kept.at s (refl, no_more)).1

    check_secret-Lawful : (t : Time) (r : Reply ApiError Secret) → Lawful (check_secret W c t r)
    unfolding check_secret check_token renew_near_expiry OperatorCall
    check_secret-Lawful t (bad (not_found e)) = renew-Lawful
    check_secret-Lawful t (bad (conflict e)) = Keeps-halt _
    check_secret-Lawful t (bad (other_failure e)) = Keeps-halt _
    check_secret-Lawful t (good x) = search (only_rules, renew-Lawful, valid-Lawful, tt) depth 14

    check-Lawful : Lawful (check_expiry_and_update_access_token W c)
    unfolding check_expiry_and_update_access_token has_expired check_stored_token OperatorCall
    check-Lawful = search (only_rules, renew-Lawful, check_secret-Lawful, tt) depth 14

    refresh-Lawful : Lawful (refresh W c)
    unfolding refresh report_failure clear_error ignore_error update_status_with_error set_error
        OperatorCall
    refresh-Lawful = search (only_rules, check-Lawful) depth 16

    after_get-Lawful : (req : ObjectKey) (e : Option ApiError) → Lawful (after_get W c req e)
    unfolding after_get
    after_get-Lawful req (some (not_found e)) = clean_up-Lawful req
    after_get-Lawful req (some (conflict e)) = Keeps-halt _
    after_get-Lawful req (some (other_failure e)) = Keeps-halt _
    after_get-Lawful req none = search (only_rules, clean_up-Lawful, refresh-Lawful) depth 8

    reconcile-Lawful : (req : ObjectKey) → Lawful (reconcile W c req)
    unfolding reconcile OperatorCall
    reconcile-Lawful req = search (only_rules, after_get-Lawful, tt) depth 8

  -- The states that a series of Reconciles reaches, each for a request of the queue's choice.
  pub data Run (s : State) : State → Type 0 where
    idle : Run s s
    served : {t : State} (req : ObjectKey) → Run s t → Run s (reconcile W c req t).1

  -- Over any series of Reconciles, for any requests and whatever the world answers, the operator
  -- makes no call but those that OperatorCall allows.
  pub Run-OperatorCall : {s t : State} → Run s t → Since (OperatorCall W c) s.trace t.trace
  Run-OperatorCall idle = no_more
  Run-OperatorCall {s} (served {t} req r) = (reconcile-Lawful s.trace req).at t (Run-OperatorCall r)
