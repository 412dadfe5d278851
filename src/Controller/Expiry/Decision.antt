-- ===== src/Controller/Expiry/Decision.antt =====
-- What checkExpiryAndUpdateAccessToken of internal/controller/githubapp_controller.go decides, by
-- what it finds.
use github_app_operator.Base.{◌<◌, ◌≤◌, String, ◌≡◌, ◌≢◌, true, false, ◌∷◌, lookup}
use github_app_operator.Base.Int.{leb_ℤ}
use github_app_operator.Api.Types.{Secret, ObjectKey}
use github_app_operator.World.{World, Call, ApiError, not_found, api_message, good, bad}
use github_app_operator.World.Action.{State, Result, ok, stop, failed}
use github_app_operator.Controller.Config.{Config}
use github_app_operator.Controller.Validity.{is_access_token_valid}
use github_app_operator.Controller.Validity.Laws.{Accepted}
use github_app_operator.Controller.AccessToken.{create_or_update_access_token}
use github_app_operator.Controller.Expiry.{time_until, value_or_empty}
use github_app_operator.Controller.Expiry.Contents.{HoldsOnlyToken, HasToken, LacksToken}

abbrev pub called : Call → State → State
called x u = record u { trace = x ∷ u.trace }

module _ (W : World) (c : Config) (s : State) where
  abbrev pub secret_key : ObjectKey
  secret_key = record { namespace = s.app.meta.namespace; name = s.app.spec.access_token_secret }

  -- After the clock, and after the secret, was read.
  abbrev pub clocked : State
  clocked = called Call.read_clock s

  abbrev pub looked_up : State
  looked_up = called (Call.get_secret secret_key) clocked

  abbrev pub renewed_from : State → Result (Unit {0}) × State
  renewed_from u = create_or_update_access_token W c u

  abbrev pub token_of : Secret → String
  token_of x = value_or_empty (lookup "token" x.contents)

  abbrev pub username_of : Secret → String
  username_of x = value_or_empty (lookup "username" x.contents)

  -- A token was issued, and its expiry is not past.
  abbrev pub Unexpired : Type 0
  Unexpired = (s.app.status.expires_at ≢ 0) × (W.now s.trace ≤ s.app.status.expires_at)

  -- Get has found the secret x, which holds no foreign key, and the token has not expired.
  abbrev pub Sound : Secret → Type 0
  Sound x = Unexpired × (W.get_secret clocked.trace secret_key ≡ good x) × HoldsOnlyToken x.contents

  -- The check of the token has succeeded with GitHub, and has left the state u.
  abbrev pub Vouched : Secret → String → State → Type 0
  Vouched x token u =
      (is_access_token_valid W (username_of x) token looked_up ≡ (ok true, u))
      × Accepted W (username_of x) token looked_up u

  -- The time that is left at the state u is more than the threshold.
  abbrev pub IsFar : State → Type 0
  IsFar u = leb_ℤ (time_until s.app.status.expires_at (W.now u.trace)) c.time_before_expiry ≡ false

  -- What the check does, by what it finds.
  pub data Decision (out : Result (Unit {0}) × State) : Type 0 where
    never_issued : s.app.status.expires_at ≡ 0 → out ≡ renewed_from s → Decision out
    expired :
        s.app.status.expires_at ≢ 0
        → s.app.status.expires_at < W.now s.trace
        → out ≡ renewed_from clocked
        → Decision out
    missing :
        (e : String)
        → Unexpired
        → W.get_secret clocked.trace secret_key ≡ bad (not_found e)
        → out ≡ renewed_from looked_up
        → Decision out
    unreadable :
        (e : ApiError)
        → Unexpired
        → W.get_secret clocked.trace secret_key ≡ bad e
        → ((m : String) → e ≢ not_found m)
        → out ≡ (stop (failed (api_message e)), looked_up)
        → Decision out
    foreign_key :
        (x : Secret)
        → Unexpired
        → W.get_secret clocked.trace secret_key ≡ good x
        → ¬ HoldsOnlyToken x.contents
        → out ≡ renewed_from looked_up
        → Decision out
    refused :
        (x : Secret) (u : State)
        → Sound x
        → is_access_token_valid W (username_of x) (token_of x) looked_up ≡ (ok false, u)
        → out ≡ renewed_from u
        → Decision out
    near_expiry :
        (x : Secret) (u : State)
        → Sound x
        → Vouched x (token_of x) u
        → leb_ℤ (time_until s.app.status.expires_at (W.now u.trace)) c.time_before_expiry ≡ true
        → out ≡ renewed_from (called Call.read_clock u)
        → Decision out
    -- GitHub has accepted the token of the secret.
    left_alone :
        (x : Secret) (u : State)
        → Sound x
        → HasToken x.contents (token_of x)
        → Vouched x (token_of x) u
        → IsFar u
        → out ≡ (ok tt, called Call.read_clock u)
        → Decision out
    -- The secret lacks a token, and GitHub has accepted an empty one.
    left_without_token :
        (x : Secret) (u : State)
        → Sound x
        → LacksToken x.contents
        → Vouched x "" u
        → IsFar u
        → out ≡ (ok tt, called Call.read_clock u)
        → Decision out
