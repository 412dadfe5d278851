-- ===== src/Controller/Status/Laws.antt =====
-- updateGithubAppStatusWithRetry of internal/controller/githubapp_controller.go: how it ends.
use github_app_operator.Base.{
  ℕ, zero, suc, ◌+◌, ◌-◌, ◌≤◌, ◌<◌, ◌≡◌, refl, ◌⊎◌, inl, inr, String, ◌<>◌, some, [], ◌∷◌, arith,
  Bool-cases, true, false, leb,
}
use github_app_operator.Api.Types.{Time, GithubApp}
use github_app_operator.World.{
  World, Call, Trace, good, bad, ApiError, not_found, conflict, other_failure,
}
use github_app_operator.World.Action.{
  Action, State, Result, ok, stop, failed, halt, current_app, set_app, ◌>>=◌,
}
use github_app_operator.World.Calls.{perform, update_status}
use github_app_operator.World.Invert.{Reply-cases}
use github_app_operator.Controller.Status.{
  with_expiry, set_expiry, pause, after_update, attempt_update, update_github_app_status_with_retry,
}

-- The status updates that a trace holds.
abbrev pub status_updates : Trace → ℕ
status_updates [] = 0
status_updates (Call.update_status a ∷ t) = suc (status_updates t)
status_updates (_ ∷ t) = status_updates t

-- The state after an update was sent: the app that came back, and the app that was sent.
abbrev pub sent_status : GithubApp → GithubApp → State → State
sent_status back sent s = record { app = back; trace = Call.update_status sent ∷ s.trace }

abbrev pub paused : ℕ → State → State
paused attempts s = record s { trace = Call.sleep (pause attempts) ∷ s.trace }

abbrev pub too_many : String
too_many = "maximum retry attempts reached, failed to update GitHubApp status"

module _ (W : World) (expires_at : Time) (max_attempts : ℕ) where
  abbrev pub fresh : State → GithubApp
  fresh s = with_expiry expires_at s.app

  abbrev pub attempt : ℕ → ℕ → Action (Unit {0})
  attempt = attempt_update W expires_at max_attempts

  attempt-good :
      (fuel n : ℕ) (s : State) {back : GithubApp}
      → W.update_status s.trace (fresh s) ≡ good back
      → attempt (suc fuel) n s ≡ (ok tt, sent_status back (fresh s) s)
  unfolding attempt_update set_expiry update_status ◌>>=◌ current_app set_app
  attempt-good fuel n s h = rw h

  pub attempt-bad :
      (fuel n : ℕ) (s : State) {e : ApiError}
      → W.update_status s.trace (fresh s) ≡ bad e
      → attempt (suc fuel) n s
        ≡ after_update W expires_at max_attempts
            (n + 1)
            (attempt fuel (n + 1))
            (some e)
            (sent_status (fresh s) (fresh s) s)
  unfolding attempt_update set_expiry update_status ◌>>=◌ current_app set_app
  attempt-bad fuel n s h = rw h

  -- A conflict, or an error that ends the loop.
  ApiError-cases :
      (e : ApiError)
      → ((m : String) × (e ≡ conflict m))
        ⊎ ((m : String) × ((n : ℕ) (rest : Action (Unit {0})) (s : State)
              → after_update W expires_at max_attempts n rest (some e) s ≡ (stop (failed m), s)))
  unfolding halt
  ApiError-cases (conflict m) = inl (m, refl)
  ApiError-cases (not_found m) = inr ("failed to update GitHubApp status: " <> m, λ n rest s. refl)
  ApiError-cases (other_failure m) =
      inr ("failed to update GitHubApp status: " <> m, λ n rest s. refl)

  pub last_conflict :
      (n : ℕ) (rest : Action (Unit {0})) (m : String) (s : State)
      → leb max_attempts n ≡ true
      → after_update W expires_at max_attempts n rest (some (conflict m)) s
        ≡ (stop (failed too_many), s)
  unfolding halt
  last_conflict n rest m s h = rw h

  pub another_attempt :
      (n : ℕ) (rest : Action (Unit {0})) (m : String) (s : State)
      → leb max_attempts n ≡ false
      → after_update W expires_at max_attempts n rest (some (conflict m)) s ≡ rest (paused n s)
  unfolding ◌>>=◌ perform
  another_attempt n rest m s h = rw h

  -- How the loop ends from attempt n on: the server took the object with the new expiry, or an
  -- error is returned; at most the attempts that are left were made.
  pub data Ending (n : ℕ) (s : State) (out : Result (Unit {0}) × State) : Type 0 where
    stored :
        (before : State) (back : GithubApp)
        → W.update_status before.trace (fresh before) ≡ good back
        → out ≡ (ok tt, sent_status back (fresh before) before)
        → status_updates out.1.trace ≤ status_updates s.trace + (max_attempts - n)
        → Ending n s out
    refused :
        (e : String)
        → out.0 ≡ stop (failed e)
        → status_updates out.1.trace ≤ status_updates s.trace + (max_attempts - n)
        → Ending n s out

  Ending-paused :
      {n : ℕ} {s : State} {out : Result (Unit {0}) × State}
      → n + 1 < max_attempts
      → Ending (n + 1) (paused (n + 1) (sent_status (fresh s) (fresh s) s)) out
      → Ending n s out
  Ending-paused l (stored b back e o c) = stored b back e o (omega arith)
  Ending-paused l (refused e o c) = refused e o (omega arith)

  attempt-Ending :
      (fuel n : ℕ) (s : State)
      → n < max_attempts
      → max_attempts < n + fuel
      → Ending n s (attempt fuel n s)
  attempt-Ending zero n s l m = absurd (omega arith)
  attempt-Ending (suc fuel) n s l m = elim (Reply-cases (W.update_status s.trace (fresh s))) [
    | inl (back, h) ↦ rw (attempt-good fuel n s h) (stored s back h refl (omega arith))
    | inr (e, h) ↦ rw (attempt-bad fuel n s h) (elim (ApiError-cases e) [
      | inr (text, other) ↦
          rw (other (n + 1) (attempt fuel (n + 1)) (sent_status (fresh s) (fresh s) s))
            (refused text refl (omega arith))
      | inl (text, c) ↦ rw c (elim (Bool-cases (leb max_attempts (n + 1))) [
        | inl last ↦ rw (last_conflict (n + 1) _ text _ last) (refused too_many refl (omega arith))
        | inr more ↦ rw (another_attempt (n + 1) _ text _ more) (
            Ending-paused (ground arith)
              (attempt-Ending fuel (n + 1) _ (ground arith) (omega arith)))
      ])
    ])
  ]

  -- With at least one attempt allowed, the loop ends: it has stored an object with the new expiry
  -- as its last update, or it returns an error; it never makes more updates than attempts.
  pub update_github_app_status_with_retry-Ending :
      (s : State)
      → 0 < max_attempts
      → Ending 0 s (update_github_app_status_with_retry W expires_at max_attempts s)
  unfolding update_github_app_status_with_retry
  update_github_app_status_with_retry-Ending s h =
      attempt-Ending (suc max_attempts) 0 s h (omega arith)
