-- ===== src/Controller/Setup/Total.antt =====
-- SetupWithManager of internal/controller/githubapp_controller.go: the configuration it leaves.
use github_app_operator.Base.{String, ◌≡◌, refl, ◌⊎◌, inl, inr, Option, none, some, List}
use github_app_operator.World.{World, Call, Trace, Reply, good, bad}
use github_app_operator.World.Action.{
  Action, State, Result, ok, stop, failed, panicked, out_of_fuel, continue, pure, lift, on_error,
  need, ◌>>=◌,
}
use github_app_operator.World.Calls.{perform}
use github_app_operator.Controller.Config.{Config}
use github_app_operator.Controller.Setup.{
  Json, text, object, other, Fields, as_object, as_text, Process, map_claims, default_requeue_after,
  default_time_before_expiry, duration_or, token_path_or_default, account_of_claims,
  get_service_account_and_namespace, setup_with_manager,
}
use github_app_operator.Controller.Setup.Laws.{Account, get_service_account_and_namespace-Account}

-- A value or an error, and no panic.
abbrev IsClean : {A : Type 0} → Result A → Type 0
IsClean (ok a) = Unit
IsClean (stop (failed e)) = Unit
IsClean (stop panicked) = ⊥
IsClean (stop out_of_fuel) = ⊥

-- The action returns a value or an error from every state.
record Returns {A : Type 0} (m : Action A) : Type 0 where
  at : (s : State) → IsClean (m s).0

continue-IsClean :
    {A B : Type 0} (r : Result A) (f : A → Action B) (s : State)
    → IsClean r
    → ((a : A) → Returns (f a))
    → IsClean (continue r f s).0
continue-IsClean (ok a) f s h k = (k a).at s
continue-IsClean (stop (failed e)) f s h k = tt
continue-IsClean (stop panicked) f s h k = absurd h
continue-IsClean (stop out_of_fuel) f s h k = absurd h

Returns-bind :
    {A B : Type 0} (m : Action A) (f : A → Action B)
    → Returns m
    → ((a : A) → Returns (f a))
    → Returns (m >>= f)
unfolding ◌>>=◌
Returns-bind m f h k = record { at = λ s. let (r, u) = m s in continue-IsClean r f u (h.at s) k }

Returns-perform : {A : Type 0} (c : Call) (answer : Trace → A) → Returns (perform c answer)
unfolding perform
Returns-perform c answer = record { at = λ s. tt }

Returns-lift : {A : Type 0} (r : Result A) → IsClean r → Returns (lift r)
unfolding lift
Returns-lift r h = record { at = λ s. h }

Returns-pure : {A : Type 0} (a : A) → Returns (pure a)
unfolding pure
Returns-pure a = record { at = λ s. tt }

need-IsClean : {E A : Type 0} (m : E → String) (r : Reply E A) → IsClean (need m r)
need-IsClean m (good a) = tt
need-IsClean m (bad e) = tt

as_object-IsClean : (m : String) (j : Json) → IsClean (as_object m j)
as_object-IsClean m (object fs) = tt
as_object-IsClean m (text x) = tt
as_object-IsClean m other = tt

as_text-IsClean : (m : String) (j : Json) → IsClean (as_text m j)
as_text-IsClean m (object fs) = tt
as_text-IsClean m (text x) = tt
as_text-IsClean m other = tt

map_claims-IsClean : (r : Option Fields) → IsClean (map_claims r)
map_claims-IsClean (some fs) = tt
map_claims-IsClean none = tt

ruleset returning = (
  Returns-bind, Returns-perform, Returns-lift, Returns-pure, need-IsClean, as_object-IsClean,
  as_text-IsClean, map_claims-IsClean,
)

account_of_claims-Returns : (parsed : Option Fields) → Returns (account_of_claims parsed)
unfolding account_of_claims
account_of_claims-Returns parsed = search (returning) depth 16

module _ (W : World) (p : Process) (path : String) where
  account-Returns : Returns (get_service_account_and_namespace W p path)
  unfolding get_service_account_and_namespace
  account-Returns = search (returning, account_of_claims-Returns) depth 12

ends :
    {A : Type 0} (out : Result A × State)
    → IsClean out.0
    → ((a : A) × (u : State) × (out ≡ (ok a, u)))
      ⊎ ((e : String) × (u : State) × (out ≡ (stop (failed e), u)))
ends (ok a, u) h = inl (a, u, refl)
ends (stop (failed e), u) h = inr (e, u, refl)
ends (stop panicked, u) h = absurd h
ends (stop out_of_fuel, u) h = absurd h

module _ (W : World) (p : Process) (cache : String) (paths : List String) (s : State) where
  abbrev path : String
  path = token_path_or_default paths

  -- The configuration that the set-up leaves.
  pub record Configured (g : Config) : Type 0 where
    pub interval :
        g.reconcile_interval
        ≡ duration_or default_requeue_after (p.parse_duration (p.getenv "CHECK_INTERVAL"))
    pub threshold :
        g.time_before_expiry
        ≡ duration_or default_time_before_expiry (p.parse_duration (p.getenv "EXPIRY_THRESHOLD"))
    pub cached_at : g.private_key_cache_path ≡ cache
    pub account :
        Account W p path s g.service_account_name g.kubernetes_namespace
        ⊎ ((g.service_account_name ≡ "") × (g.kubernetes_namespace ≡ ""))

  abbrev settled : String × String → Config
  settled found = record {
    reconcile_interval =
        duration_or default_requeue_after (p.parse_duration (p.getenv "CHECK_INTERVAL"));
    time_before_expiry =
        duration_or default_time_before_expiry (p.parse_duration (p.getenv "EXPIRY_THRESHOLD"));
    vault_audience = p.getenv "VAULT_ROLE_AUDIENCE";
    vault_role = p.getenv "VAULT_ROLE";
    service_account_name = found.0;
    kubernetes_namespace = found.1;
    private_key_cache_path = cache;
  }

  pub setup_with_manager-Configured :
      p.complete ≡ none
      → (g : Config) × (u : State) × (setup_with_manager W p cache paths s ≡ (ok g, u))
        × Configured g
  unfolding setup_with_manager ◌>>=◌ on_error lift pure
  setup_with_manager-Configured h =
      elim (ends (get_service_account_and_namespace W p path s) ((account-Returns W p path).at s)) [
        | inl (a, u, e) ↦ (
          settled a,
          u,
          rw (e, h) refl,
          record {
            interval = refl;
            threshold = refl;
            cached_at = refl;
            account = inl (get_service_account_and_namespace-Account W p path s e);
          },
        )
        | inr (x, u, e) ↦ (
          settled ("", ""),
          u,
          rw (e, h) refl,
          record {
            interval = refl;
            threshold = refl;
            cached_at = refl;
            account = inr (refl, refl);
          },
        )
      ]

  -- A failed registration ends the set-up with its error.
  pub setup_with_manager-refused :
      {e : String}
      → p.complete ≡ some e
      → (setup_with_manager W p cache paths s).0 ≡ stop (failed e)
  unfolding setup_with_manager ◌>>=◌ on_error lift pure
  setup_with_manager-refused h =
      elim (ends (get_service_account_and_namespace W p path s) ((account-Returns W p path).at s)) [
        | inl (a, u, e) ↦ rw (e, h)
        | inr (x, u, e) ↦ rw (e, h)
      ]
