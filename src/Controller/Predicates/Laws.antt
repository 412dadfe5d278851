-- ===== src/Controller/Predicates/Laws.antt =====
-- Which updates of a GithubApp reach the reconciler.
use github_app_operator.Base.{
  ◌≡◌, ◌≢◌, ◌↔◌, inl, inr, false, arith, eq_iff, str_eq, Bool-cases, ◌&&◌, not,
}
use github_app_operator.Api.Types.{GithubApp}
use github_app_operator.Controller.Predicates.{is_zero_time, github_app_predicate}
use github_app_operator.Controller.PrivateKey.Safety.{nonempty_of}

-- An update that only records the first expiry, or that clears the error.
pub data IsIgnored (old new : GithubApp) : Type 0 where
  first_expiry : old.status.expires_at ≡ 0 → new.status.expires_at ≢ 0 → IsIgnored old new
  error_cleared : old.status.error ≢ "" → new.status.error ≡ "" → IsIgnored old new

module _ (old new : GithubApp) where
  ignored : IsIgnored old new → github_app_predicate old new ≡ false
  unfolding github_app_predicate
  ignored (first_expiry p q) =
      ground (arith, eq_iff old.status.error "", eq_iff new.status.error "")
  ignored (error_cleared p q) =
      ground (arith, eq_iff old.status.error "", eq_iff new.status.error "")

  passed : github_app_predicate old new ≡ false → IsIgnored old new
  unfolding github_app_predicate
  passed h =
      elim (Bool-cases
        (is_zero_time old.status.expires_at && not (is_zero_time new.status.expires_at))) [
          | inl e ↦ first_expiry (ground arith) (ground arith)
          | inr e ↦ elim (Bool-cases (str_eq old.status.error "")) [
            | inr o ↦ elim (Bool-cases (str_eq new.status.error "")) [
              | inl n ↦ error_cleared (nonempty_of old.status.error o) ((eq_iff _ _).0 n)
              | inr n ↦ cc (rw (e, o, n) at h)
            ]
            | inl o ↦ cc (rw (e, o) at h)
          ]
        ]

  -- An update is ignored exactly when it sets an expiry that was unset, or clears an error that was
  -- set. Every other update reaches the reconciler, also one that only renews the expiry in the
  -- status or records an error there.
  pub github_app_predicate-IsIgnored : (github_app_predicate old new ≡ false) ↔ IsIgnored old new
  github_app_predicate-IsIgnored = (passed, ignored)
