-- ===== src/Controller/Expiry.antt =====
-- checkExpiryAndUpdateAccessToken and checkExpiryAndRequeue of
-- internal/controller/githubapp_controller.go.
pub mod Contents
pub mod Decision
pub mod Laws
pub mod Rests
use github_app_operator.Base.{
  String, Bool, true, false, not, ◌&&◌, ◌||◌, Option, none, some, [], ◌∷◌, Map, lookup, ltb, ◌==◌,
  str_eq, if◌then◌else◌,
}
use github_app_operator.Base.Int.{ℤ, pos, negsuc, sub_ℕ, leb_ℤ}
use github_app_operator.Api.Types.{Time, Duration, Bytes, Secret}
use github_app_operator.World.{
  World, Reply, good, bad, ApiError, not_found, conflict, other_failure,
}
use github_app_operator.World.Action.{Action, pure, fail, current_app, ◌>>=◌}
use github_app_operator.World.Calls.{get_secret, read_clock}
use github_app_operator.Controller.Config.{Config}
use github_app_operator.Controller.Validity.{is_access_token_valid}
use github_app_operator.Controller.AccessToken.{create_or_update_access_token}

-- The result of time.Time.Sub: it stops at the ends of int64.
abbrev pub saturate : ℤ → Duration
saturate (pos n) = if ltb n 9223372036854775808 then pos n else pos 9223372036854775807
saturate (negsuc n) = if ltb n 9223372036854775808 then negsuc n else negsuc 9223372036854775807

-- time.Until(t) at the instant now
abbrev pub time_until : Time → Time → Duration
time_until t now = saturate (sub_ℕ t now)

-- `for key := range data { if key != "token" && key != "username" { ... return } }`
unfoldable pub has_invalid_key : Map Bytes → Bool
has_invalid_key [] = false
has_invalid_key ((key, v) ∷ m) =
    not (str_eq key "token") && not (str_eq key "username") || has_invalid_key m

-- string(m[k]): a missing key reads as the empty string
abbrev pub value_or_empty : Option Bytes → String
value_or_empty none = ""
value_or_empty (some v) = v

-- ctrl.Result, as its one field that the source sets
unfoldable pub check_expiry_and_requeue : Config → Duration
check_expiry_and_requeue c = c.reconcile_interval

module _ (W : World) where
  -- `expiresAt.IsZero() || expiresAt.Before(time.Now())`
  unfoldable pub has_expired : Time → Action Bool
  has_expired expires_at =
      if expires_at == 0 then pure true else do now ← read_clock W; pure (ltb expires_at now)

  module _ (c : Config) where
    renew : Action (Unit {0})
    renew = create_or_update_access_token W c

    -- `durationUntilExpiry <= timeBeforeExpiry`
    unfoldable pub renew_near_expiry : Time → Action (Unit {0})
    unfolding renew
    renew_near_expiry expires_at = do
      now ← read_clock W
      if leb_ℤ (time_until expires_at now) c.time_before_expiry then renew else pure tt

    unfoldable pub check_token : Time → Secret → Action (Unit {0})
    unfolding renew
    check_token expires_at secret = do
      let access_token = value_or_empty (lookup "token" secret.contents)
      let username = value_or_empty (lookup "username" secret.contents)
      valid ← is_access_token_valid W username access_token
      if not valid then renew else renew_near_expiry expires_at

    unfoldable pub check_secret : Time → Reply ApiError Secret → Action (Unit {0})
    unfolding renew
    check_secret expires_at (bad (not_found e)) = renew
    check_secret expires_at (bad (conflict e)) = fail e
    check_secret expires_at (bad (other_failure e)) = fail e
    check_secret expires_at (good secret) =
        if has_invalid_key secret.contents then renew else check_token expires_at secret

    unfoldable pub check_stored_token : Time → Action (Unit {0})
    check_stored_token expires_at = do
      a ← current_app
      r ← get_secret W (record { namespace = a.meta.namespace; name = a.spec.access_token_secret })
      check_secret expires_at r

    unfoldable pub check_expiry_and_update_access_token : Action (Unit {0})
    unfolding renew
    check_expiry_and_update_access_token = do
      a ← current_app
      expired ← has_expired a.status.expires_at
      if expired then renew else check_stored_token a.status.expires_at
