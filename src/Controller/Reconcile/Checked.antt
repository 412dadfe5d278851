-- ===== src/Controller/Reconcile/Checked.antt =====
-- Reconcile of internal/controller/githubapp_controller.go: the token after a success.
use github_app_operator.Base.{String, Bool, ◌≡◌, refl, sym, subst, ◌∙◌, ap, false, none}
use github_app_operator.Api.Types.{GithubApp, Secret, Duration, ObjectKey}
use github_app_operator.World.{World, Call, good}
use github_app_operator.World.Action.{State, Result, ok}
use github_app_operator.World.Since.{Keeps, Fixed, fixed_rules, no_more}
use github_app_operator.Controller.Config.{Config}
use github_app_operator.Controller.Retry.Safety.{with_retries_safe}
use github_app_operator.Controller.Validity.{is_access_token_valid}
use github_app_operator.Controller.Validity.Laws.{Accepted}
use github_app_operator.Controller.AccessToken.{create_or_update_access_token}
use github_app_operator.Controller.AccessToken.Laws.{Renewed, create_or_update_access_token-Renewed}
use github_app_operator.Controller.Expiry.Contents.{HoldsOnlyToken, HasToken, LacksToken}
use github_app_operator.Controller.Expiry.Decision.{
  called, secret_key, clocked, looked_up, token_of, username_of, Decision, IsFar, never_issued,
  expired, missing, unreadable, foreign_key, refused, near_expiry, left_alone, left_without_token,
}
use github_app_operator.Controller.Expiry.Laws.{check_expiry_and_update_access_token-Decision}
use github_app_operator.Controller.Reconcile.{is_being_deleted, reconcile}
use github_app_operator.Controller.Reconcile.Laws.{fetched, StoresStatus, reconcile-Refreshed}

abbrev AnyCall : Call → Type 0
AnyCall c = Unit

-- The check of a token leaves the GithubApp as it was.
is_access_token_valid-app :
    (W : World) (username token : String) (s : State)
    → (is_access_token_valid W username token s).1.app ≡ s.app
unfolding is_access_token_valid
is_access_token_valid-app W username token s =
    let kept : Keeps (Fixed s.app AnyCall s.trace) (is_access_token_valid W username token) =
      search (fixed_rules, with_retries_safe) depth 10 in
    (kept.at s (refl, no_more)).0

module _ (W : World) (c : Config) (s : State) where
  -- What a success leaves: a renewal for the GithubApp has succeeded, or the secret holds nothing
  -- but a token and the username, GitHub has accepted the token, and its expiry is far enough away;
  -- or else all that is so of an empty token, and the secret lacks one.
  pub data TokenChecked : Type 0 where
    renewed : (u : State) → u.app ≡ s.app → Renewed W c u → TokenChecked
    still_valid :
        (x : Secret) (token : String) (u : State)
        → W.get_secret (clocked W c s).trace (secret_key W c s) ≡ good x
        → HoldsOnlyToken x.contents
        → HasToken x.contents token
        → Accepted W (username_of W c s x) token (looked_up W c s) u
        → IsFar W c s u
        → TokenChecked
    accepted_empty :
        (x : Secret) (u : State)
        → W.get_secret (clocked W c s).trace (secret_key W c s) ≡ good x
        → HoldsOnlyToken x.contents
        → LacksToken x.contents
        → Accepted W (username_of W c s x) "" (looked_up W c s) u
        → IsFar W c s u
        → TokenChecked

  renewed_at :
      (u : State) {m : State}
      → u.app ≡ s.app
      → ◌≡◌ {A = Result (Unit {0}) × State} (ok tt, m) (create_or_update_access_token W c u)
      → TokenChecked
  renewed_at u same o = renewed u same (create_or_update_access_token-Renewed W c u (sym o))

  ready : {m : State} → Decision W c s (ok tt, m) → TokenChecked
  ready (never_issued z o) = renewed_at s refl o
  ready (expired n z o) = renewed_at (clocked W c s) refl o
  ready (missing e n z o) = renewed_at (looked_up W c s) refl o
  ready (unreadable e n z other o) = cc
  ready (foreign_key x n g f o) = renewed_at (looked_up W c s) refl o
  ready (refused x u found v o) =
      renewed_at u
        (sym (ap (λ (r : Result Bool × State). r.1.app) v)
          ∙ is_access_token_valid-app W _ _ (looked_up W c s))
        o
  ready (near_expiry x u found (v, a) l o) = renewed_at (called Call.read_clock u) a.kept o
  ready (left_alone x u (n, g, only) has (v, a) f o) =
      still_valid x (token_of W c s x) u g only has a f
  ready (left_without_token x u (n, g, only) lacks (v, a) f o) = accepted_empty x u g only lacks a f

-- A Reconcile that succeeds on a GithubApp that is there to stay has one of three reasons. A renewal
-- for it has succeeded; or its secret holds a token that is not empty, and nothing else but the
-- username, GitHub has just accepted that token, and its expiry is further away than the threshold;
-- or the secret lacks the token or has an empty one, GitHub has accepted the empty token, and the
-- rest is as before. The server is taken to store the status that it is sent.
pub reconcile-TokenChecked :
    (W : World) (c : Config) (req : ObjectKey) (s : State) {a : GithubApp} {d : Duration}
    {t : State}
    → StoresStatus W
    → W.get_app s.trace req ≡ (none, a)
    → is_being_deleted a.meta.deletion_timestamp ≡ false
    → reconcile W c req s ≡ (ok d, t)
    → TokenChecked W c (fetched req a s)
reconcile-TokenChecked W c req s {a} stores g d h =
    let done = reconcile-Refreshed W c req s stores g d h in
    let v = fetched req a s in
    ready W c v
      (subst (Decision W c v) done.checked (check_expiry_and_update_access_token-Decision W c v))
