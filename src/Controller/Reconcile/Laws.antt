-- ===== src/Controller/Reconcile/Laws.antt =====
-- What one Reconcile does on each of its ways: error, success, deletion, and an object not found.
use github_app_operator.Base.{
  String, ◌<>◌, ◌≡◌, refl, sym, ap, ◌∙◌, inl, inr, true, false, none, some, ◌∷◌, eq_iff, str_eq,
  Bool-cases,
}
use github_app_operator.Api.Types.{Duration, GithubApp, GithubAppStatus, ObjectKey}
use github_app_operator.World.{World, Call, Trace, not_found, good}
use github_app_operator.World.Action.{
  State, Result, ok, stop, failed, halt, pure, lift, current_app, set_app, on_error, ◌>>=◌,
}
use github_app_operator.World.Calls.{perform, update_status}
use github_app_operator.World.Invert.{Reply-cases, bind-ok, pure-ok, on_error-ok}
use github_app_operator.Controller.Config.{Config}
use github_app_operator.Controller.Status.{with_error, set_error, update_status_with_error}
use github_app_operator.Controller.Rollout.{warning_event}
use github_app_operator.Controller.AccessToken.{ignore_error}
use github_app_operator.Controller.Expiry.{
  check_expiry_and_update_access_token, check_expiry_and_requeue,
}
use github_app_operator.Controller.Reconcile.{
  is_being_deleted, clean_up, report_failure, clear_error, refresh, after_get, reconcile,
}

-- The state in which Get has left its object.
abbrev pub fetched : ObjectKey → GithubApp → State → State
fetched req a s = record { app = a; trace = Call.get_app req ∷ s.trace }

-- The server stores the status that it is sent, if it takes the update.
pub record StoresStatus (W : World) : Type 0 where
  pub stored : (t : Trace) (a b : GithubApp) → W.update_status t a ≡ good b → b.status ≡ a.status

module _ (W : World) (c : Config) (req : ObjectKey) (s : State) where
  pub reconcile_found :
      {a : GithubApp}
      → W.get_app s.trace req ≡ (none, a)
      → is_being_deleted a.meta.deletion_timestamp ≡ false
      → reconcile W c req s ≡ refresh W c (fetched req a s)
  unfolding reconcile after_get ◌>>=◌ perform set_app current_app
  reconcile_found g d = rw (g, d)

  pub reconcile_missing :
      {e : String} {a : GithubApp}
      → W.get_app s.trace req ≡ (some (not_found e), a)
      → reconcile W c req s ≡ clean_up W c req (fetched req a s)
  unfolding reconcile after_get ◌>>=◌ perform set_app
  reconcile_missing g = rw g

  pub reconcile_deleted :
      {a : GithubApp}
      → W.get_app s.trace req ≡ (none, a)
      → is_being_deleted a.meta.deletion_timestamp ≡ true
      → reconcile W c req s ≡ clean_up W c req (fetched req a s)
  unfolding reconcile after_get ◌>>=◌ perform set_app current_app
  reconcile_deleted g d = rw (g, d)

  -- What a failed check leaves: the last two calls are the update of the status with the error's
  -- text and the warning.
  pub record Reported {A : Type 0} (e : String) (u : State) (out : Result A × State) : Type 0 where
    pub error : out.0 ≡ stop (failed e)
    pub calls :
        out.1.trace
        ≡ Call.record_event (warning_event "FailedRenewal" ("Error: " <> e))
          ∷ Call.update_status (with_error e u.app)
          ∷ u.trace

  report : (e : String) (u : State) → Reported e u (report_failure W c e u)
  unfolding report_failure ignore_error update_status_with_error set_error update_status on_error
      ◌>>=◌ perform current_app set_app lift halt pure
  report e u = elim (Reply-cases (W.update_status u.trace (with_error e u.app))) [
    | inl (b, h) ↦ record { error = rw h; calls = rw h }
    | inr (x, h) ↦ record { error = rw h; calls = rw h }
  ]

  refresh_failed :
      (v u : State) {e : String}
      → check_expiry_and_update_access_token W c v ≡ (stop (failed e), u)
      → refresh W c v ≡ (stop (failed e), (report_failure W c e u).1)
  unfolding refresh ◌>>=◌ on_error
  refresh_failed v u {e} h = rw (h, (report e u).error)

  -- A failed check of a GithubApp that is there to stay is reported: Reconcile returns its error,
  -- after it has tried to store the error in the status and raised a warning event with it, even
  -- where that update fails.
  pub reconcile-Reported :
      {a : GithubApp} {e : String} {u : State}
      → W.get_app s.trace req ≡ (none, a)
      → is_being_deleted a.meta.deletion_timestamp ≡ false
      → check_expiry_and_update_access_token W c (fetched req a s) ≡ (stop (failed e), u)
      → Reported e u (reconcile W c req s)
  reconcile-Reported {a} {e} {u} g d h =
      rw (reconcile_found g d ∙ refresh_failed (fetched req a s) u h)
        (record { error = refl; calls = (report e u).calls })

  clear_error-ok :
      StoresStatus W
      → (u : State) {t : State} → clear_error W c u ≡ (ok tt, t)
      → t.app.status.error ≡ ""
  unfolding clear_error set_error update_status ◌>>=◌ current_app set_app lift pure
  clear_error-ok stores u {t} h = elim (Bool-cases (str_eq u.app.status.error "")) [
    | inl e ↦
        let same : ◌≡◌ {A = Result (Unit {0}) × State} (ok tt, u) (ok tt, t) =
          rw (e, clear_error) at h in
        let state : u ≡ t = cc in
        ap (λ (x : State). x.app.status.error) (sym state) ∙ (eq_iff _ _).0 e
    | inr e ↦ elim (Reply-cases (W.update_status u.trace (with_error "" u.app))) [
      | inr (x, r) ↦ cc (rw (e, r, clear_error) at h)
      | inl (b, r) ↦
          let sent = with_error "" u.app in
          let after : State = record { app = b; trace = Call.update_status sent ∷ u.trace } in
          let same : ◌≡◌ {A = Result (Unit {0}) × State} (ok tt, after) (ok tt, t) =
            rw (e, r, clear_error) at h in
          let state : after ≡ t = cc in
          ap (λ (x : State). x.app.status.error) (sym state)
          ∙ ap (λ (x : GithubAppStatus). x.error) (stores.stored u.trace sent b r)
    ]
  ]

  -- What a successful Reconcile of a GithubApp that is there to stay has done.
  pub record Refreshed (v : State) (d : Duration) (t : State) : Type 0 where
    pub middle : State
    pub checked : check_expiry_and_update_access_token W c v ≡ (ok tt, middle)
    pub interval : d ≡ c.reconcile_interval
    pub cleared : t.app.status.error ≡ ""

  refresh-Refreshed :
      StoresStatus W
      → (v : State) {d : Duration} {t : State} → refresh W c v ≡ (ok d, t)
      → Refreshed v d t
  unfolding refresh check_expiry_and_requeue
  refresh-Refreshed stores v {d} {t} h =
      let (x, u₁, e₁, h₁) = bind-ok _ _ v h in
      let (y, u₂, e₂, h₂) = bind-ok _ _ u₁ h₁ in
      let (p, q) = pure-ok _ u₂ h₂ in
      let failing : (e : String) (u : State) → report_failure W c e u ≡ (ok tt, u₁) → ⊥ =
        λ e u r. cc ((report e u).error) in
      elim (on_error-ok _ (report_failure W c) v e₁) [
        | inl k ↦ record {
          middle = u₁;
          checked = k;
          interval = sym p;
          cleared = rw q (clear_error-ok stores u₁ e₂);
        }
        | inr (e, u, k, r) ↦ absurd (failing e u r)
      ]

  -- A Reconcile that succeeds on a GithubApp that is there to stay has checked its token without
  -- an error, asks to be called again after the configured interval, and leaves no error in the
  -- status, provided that the server stores the status that it is sent.
  pub reconcile-Refreshed :
      {a : GithubApp} {d : Duration} {t : State}
      → StoresStatus W
      → W.get_app s.trace req ≡ (none, a)
      → is_being_deleted a.meta.deletion_timestamp ≡ false
      → reconcile W c req s ≡ (ok d, t)
      → Refreshed (fetched req a s) d t
  reconcile-Refreshed {a} stores g d h =
      refresh-Refreshed stores (fetched req a s) (sym (reconcile_found g d) ∙ h)
