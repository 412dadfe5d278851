-- ===== src/Controller/Status/Stale.antt =====
-- updateGithubAppStatusWithRetry of internal/controller/githubapp_controller.go: conflicts, under
-- the API server's optimistic locking.
use github_app_operator.Base.{
  ℕ, zero, suc, ◌+◌, ◌-◌, ◌<◌, ◌≡◌, refl, inl, inr, String, arith, Bool-cases, leb,
}
use github_app_operator.Api.Types.{Time, GithubApp, ObjectMeta}
use github_app_operator.World.{World, Trace, bad, conflict}
use github_app_operator.World.Action.{State, Result, stop, failed}
use github_app_operator.World.Since.{Since, no_more, and_then}
use github_app_operator.Controller.Status.{update_github_app_status_with_retry}
use github_app_operator.Controller.Status.Laws.{
  status_updates, sent_status, paused, fresh, attempt, attempt-bad, too_many, last_conflict,
  another_attempt,
}

-- A later trace.
abbrev pub Later : Trace → Trace → Type 0
Later = Since (λ c. Unit)

abbrev pub IsConflict : World → Trace → GithubApp → Type 0
IsConflict W t a = (e : String) × (W.update_status t a ≡ bad (conflict e))

-- The API server's optimistic locking: a resource version that is out of date stays so, whatever
-- the rest of the object says. An object is known by its metadata.
pub record LocksOptimistically (W : World) : Type 0 where
  pub stays_stale :
      (t u : Trace) (a b : GithubApp)
      → Later t u
      → b.meta ≡ a.meta
      → IsConflict W t a
      → IsConflict W u b

module _ (W : World) (expires_at : Time) (max_attempts : ℕ) where
  module _ (t : Trace) (meta : ObjectMeta)
      (stale : (u : Trace) (b : GithubApp) → Later t u → b.meta ≡ meta → IsConflict W u b) where
    -- What is left after a conflict: the error, and the number of updates made.
    abbrev Futile : ℕ → State → Result (Unit {0}) × State → Type 0
    Futile n s out =
        (out.0 ≡ stop (failed too_many))
        × (status_updates out.1.trace ≡ status_updates s.trace + (max_attempts - n))

    attempt-Futile :
        (fuel n : ℕ) (s : State)
        → n < max_attempts
        → max_attempts < n + fuel
        → Later t s.trace
        → s.app.meta ≡ meta
        → Futile n s (attempt W expires_at max_attempts fuel n s)
    attempt-Futile zero n s l m later same = absurd (omega arith)
    attempt-Futile (suc fuel) n s l m later same =
        let (e, h) = stale s.trace (fresh W expires_at max_attempts s) later same in
        rw (attempt-bad W expires_at max_attempts fuel n s h)
          (elim (Bool-cases (leb max_attempts (n + 1))) [
            | inl last ↦
                rw (last_conflict W expires_at max_attempts (n + 1) _ e _ last) (refl, ground arith)
            | inr more ↦ rw (another_attempt W expires_at max_attempts (n + 1) _ e _ more) (
                let (a, b) =
                  attempt-Futile fuel (n + 1)
                    (paused (n + 1) (
                      sent_status (fresh W expires_at max_attempts s)
                        (fresh W expires_at max_attempts s) s))
                    (ground arith) (omega arith) (and_then tt (and_then tt later)) same in
                (a, ground arith))
          ])

  -- Under the API server's optimistic locking, a first attempt that meets a conflict dooms all
  -- the others: the loop sends every update that it is allowed and returns the error of too many
  -- attempts.
  pub update_github_app_status_with_retry-futile :
      LocksOptimistically W
      → (s : State) → 0 < max_attempts
      → IsConflict W s.trace (fresh W expires_at max_attempts s)
      → let out = update_github_app_status_with_retry W expires_at max_attempts s in
        (out.0 ≡ stop (failed too_many))
        × (status_updates out.1.trace ≡ status_updates s.trace + max_attempts)
  unfolding update_github_app_status_with_retry
  update_github_app_status_with_retry-futile locks s h c =
      let (refusal, sent) =
        attempt-Futile s.trace s.app.meta
          (λ u b later same. locks.stays_stale s.trace u _ b later same c) (suc max_attempts) 0 s h
          (omega arith) no_more refl in
      (refusal, omega (arith, sent))
