-- ===== src/Controller/Reconcile/CleanUp.antt =====
-- What Reconcile removes when a GithubApp is being deleted, and when it is gone.
use github_app_operator.Base.{String, ◌≡◌, refl, ◌≢◌, true, none, some, List, [], ◌∷◌, All}
use github_app_operator.Api.Types.{GithubApp, Secret, OwnerReference, ObjectKey, blank_app}
use github_app_operator.World.{World, Call, Trace, not_found, api_message, good}
use github_app_operator.World.Action.{Action, State}
use github_app_operator.World.Calls.{perform}
use github_app_operator.World.Since.{
  Since, no_more, and_then, Keeps, Keeps-pure, Keeps-lift, Keeps-bind, Keeps-bind-value, Keeps-if,
  Fixed, Fixed-perform, Fixed-current_app, fixed_rules,
}
use github_app_operator.World.Invert.{need-ok, lift-ok}
use github_app_operator.Controller.Config.{Config}
use github_app_operator.Controller.Cache.{delete_private_key_cache}
use github_app_operator.Controller.Owned.{
  delete_one, delete_if_owned, delete_all_owned, delete_owned_secrets,
}
use github_app_operator.Controller.Owned.Laws.{is_owned, delete_if_owned-is_owned, is_owned-false}
use github_app_operator.Controller.Reconcile.{is_being_deleted, clean_up, reconcile}
use github_app_operator.Controller.Reconcile.Laws.{fetched, reconcile_missing, reconcile_deleted}

-- What the removal of the GithubApp a may do: list the secrets of its namespace, delete those that
-- name it as an owner, and remove the cached key of the request.
unfoldable pub CleanUpCall : World → Config → ObjectKey → GithubApp → Call → Type 0
CleanUpCall W c req a (Call.get_app k) = k ≡ req
CleanUpCall W c req a (Call.list_secrets n) = n ≡ a.meta.namespace
CleanUpCall W c req a (Call.delete_secret x) = is_owned a.meta.name x.meta.owner_references ≡ true
CleanUpCall W c req a (Call.remove_file p) =
    p ≡ W.join (c.private_key_cache_path ∷ req.namespace ∷ req.name ∷ [])
CleanUpCall W c req a _ = ⊥

module _ (W : World) (c : Config) (req : ObjectKey) (a : GithubApp) (t₀ : Trace) where
  abbrev pub Safe : {A : Type 0} → Action A → Type 0
  Safe m = Keeps (Fixed a (CleanUpCall W c req a) t₀) m

  delete_one-Safe : (x : Secret) → Safe (delete_if_owned W a.meta.name x x.meta.owner_references)
  unfolding CleanUpCall delete_one
  delete_one-Safe x = rw (delete_if_owned-is_owned W a.meta.name x x.meta.owner_references) (
      Keeps-if (is_owned a.meta.name x.meta.owner_references) _ _
        (λ owned. Keeps-bind _ _ (Fixed-perform _ _ owned) (λ e. Keeps-lift _))
        (λ other. Keeps-pure tt))

  delete_all-Safe : (xs : List Secret) → Safe (delete_all_owned W a.meta.name xs)
  unfolding delete_all_owned
  delete_all-Safe [] = Keeps-pure tt
  delete_all-Safe (x ∷ xs) = Keeps-bind _ _ (delete_one-Safe x) (λ u. delete_all-Safe xs)

  pub clean_up-Safe : Safe (clean_up W c req)
  unfolding clean_up delete_owned_secrets delete_private_key_cache CleanUpCall
  clean_up-Safe = search (fixed_rules, delete_all-Safe) depth 10

-- A Reconcile of a GithubApp that is being deleted deletes no secret but those that name it as an
-- owner, removes no file but its cached key, writes nothing, and asks neither GitHub nor a source of
-- private keys; it records no event and updates no status, not even when it fails.
pub reconcile-CleanUpCall :
    (W : World) (c : Config) (req : ObjectKey) (s : State) {a : GithubApp}
    → W.get_app s.trace req ≡ (none, a)
    → is_being_deleted a.meta.deletion_timestamp ≡ true
    → Since (CleanUpCall W c req a) s.trace (reconcile W c req s).1.trace
unfolding CleanUpCall
reconcile-CleanUpCall W c req s {a} g d =
    rw (reconcile_deleted W c req s g d)
      ((clean_up-Safe W c req a s.trace).at (fetched req a s) (refl, and_then refl no_more)).1

-- No call deletes a secret.
abbrev pub NoSecretDeleted : Call → Type 0
NoSecretDeleted (Call.delete_secret x) = ⊥
NoSecretDeleted _ = Unit

-- Every owner reference has a name, as the API server demands.
pub record NamesOwners (W : World) : Type 0 where
  pub named :
      (t : Trace) (n : String) (xs : List Secret)
      → W.list_secrets t n ≡ good xs
      → All (λ x. All (λ (r : OwnerReference). r.name ≢ "") x.meta.owner_references) xs

module _ (W : World) (c : Config) (req : ObjectKey) (t₀ : Trace) where
  abbrev Spares : {A : Type 0} → Action A → Type 0
  Spares m = Keeps (Fixed blank_app NoSecretDeleted t₀) m

  keep_each :
      (xs : List Secret)
      → All (λ x. All (λ (r : OwnerReference). r.name ≢ "") x.meta.owner_references) xs
      → Spares (delete_all_owned W "" xs)
  unfolding delete_all_owned
  keep_each [] h = Keeps-pure tt
  keep_each (x ∷ xs) h =
      rw (delete_if_owned-is_owned W "" x x.meta.owner_references, is_owned-false "" _ h.0)
        (Keeps-bind _ _ (Keeps-pure tt) (λ u. keep_each xs h.1))

  keep_owned : NamesOwners W → Spares (delete_owned_secrets W)
  unfolding delete_owned_secrets perform
  keep_owned names = Fixed-current_app _ (
      Keeps-bind-value _ _ (Fixed-perform _ _ tt) λ s r u e.
        Keeps-bind-value _ _ (Keeps-lift _) λ v xs w k.
          keep_each xs (names.named s.trace "" xs (cc (need-ok api_message r (lift-ok _ v k).0))))

  keep_clean_up : NamesOwners W → Spares (clean_up W c req)
  unfolding clean_up delete_private_key_cache
  keep_clean_up names = search (fixed_rules, keep_owned) depth 10

-- A Reconcile of a GithubApp that Get does not find, and for which Get leaves a blank object,
-- deletes no secret at all, provided that every owner reference has a name.
pub reconcile-NoSecretDeleted :
    (W : World) (c : Config) (req : ObjectKey) (s : State) {e : String}
    → NamesOwners W
    → W.get_app s.trace req ≡ (some (not_found e), blank_app)
    → Since NoSecretDeleted s.trace (reconcile W c req s).1.trace
reconcile-NoSecretDeleted W c req s names g =
    rw (reconcile_missing W c req s g)
      ((keep_clean_up W c req s.trace names).at (fetched req blank_app s)
        (refl, and_then tt no_more)).1
