-- ===== src/Controller/Expiry/Laws.antt =====
-- When checkExpiryAndUpdateAccessToken renews a token, and when it leaves it alone.
use github_app_operator.Base.{
  ◌≡◌, refl, subst, ◌∙◌, inl, inr, Bool, true, false, lookup, arith, ltb, ◌==◌, Bool-cases,
}
use github_app_operator.Base.Int.{leb_ℤ}
use github_app_operator.Api.Types.{Time, Secret}
use github_app_operator.World.{
  World, Call, ApiError, not_found, conflict, other_failure, good, bad, Reply,
}
use github_app_operator.World.Action.{State, Result, ok, halt, pure, current_app, ◌>>=◌}
use github_app_operator.World.Calls.{perform}
use github_app_operator.Controller.Config.{Config}
use github_app_operator.Controller.Validity.{is_access_token_valid}
use github_app_operator.Controller.Validity.Laws.{
  is_access_token_valid-Accepted, is_access_token_valid_total,
}
use github_app_operator.Controller.Expiry.{
  time_until, has_invalid_key, has_expired, renew_near_expiry, check_token, check_secret,
  check_stored_token, check_expiry_and_update_access_token,
}
use github_app_operator.Controller.Expiry.Contents.{
  has_invalid_key-false, has_invalid_key-true, token_cases, LacksToken-read, LacksToken-read,
}
use github_app_operator.Controller.Expiry.Decision.{
  called, secret_key, clocked, looked_up, renewed_from, token_of, username_of, Unexpired, Sound,
  Vouched, IsFar, Decision, never_issued, expired, missing, unreadable, foreign_key, refused,
  near_expiry, left_alone, left_without_token,
}

module _ (W : World) (c : Config) (s : State) where
  abbrev expires_at : Time
  expires_at = s.app.status.expires_at

  abbrev check : Result (Unit {0}) × State
  check = check_expiry_and_update_access_token W c s

  check_zero : (expires_at == 0) ≡ true → check ≡ renewed_from W c s s
  unfolding check_expiry_and_update_access_token has_expired ◌>>=◌ current_app pure
  check_zero h = rw h

  check_past :
      (expires_at == 0) ≡ false
      → ltb expires_at (W.now s.trace) ≡ true
      → check ≡ renewed_from W c s (clocked W c s)
  unfolding check_expiry_and_update_access_token has_expired ◌>>=◌ current_app perform pure
  check_past h k = rw (h, k)

  pub check_later :
      (expires_at == 0) ≡ false
      → ltb expires_at (W.now s.trace) ≡ false
      → check
        ≡ check_secret W c expires_at
            (W.get_secret (clocked W c s).trace (secret_key W c s))
            (looked_up W c s)
  unfolding check_expiry_and_update_access_token has_expired check_stored_token ◌>>=◌ current_app
      perform pure
  check_later h k = rw (h, k)

  abbrev valid_of : Secret → Result Bool × State
  valid_of x = is_access_token_valid W (username_of W c s x) (token_of W c s x) (looked_up W c s)

  module _ (x : Secret) (u : State) where
    token_refused :
        valid_of x ≡ (ok false, u)
        → check_token W c expires_at x (looked_up W c s) ≡ renewed_from W c s u
    unfolding check_token ◌>>=◌
    token_refused v = rw v

    pub token_accepted :
        valid_of x ≡ (ok true, u)
        → check_token W c expires_at x (looked_up W c s) ≡ renew_near_expiry W c expires_at u
    unfolding check_token ◌>>=◌
    token_accepted v = rw v

    renew_near :
        leb_ℤ (time_until expires_at (W.now u.trace)) c.time_before_expiry ≡ true
        → renew_near_expiry W c expires_at u ≡ renewed_from W c s (called Call.read_clock u)
    unfolding renew_near_expiry ◌>>=◌ perform
    renew_near h = rw h

    pub leave_far :
        leb_ℤ (time_until expires_at (W.now u.trace)) c.time_before_expiry ≡ false
        → renew_near_expiry W c expires_at u ≡ (ok tt, called Call.read_clock u)
    unfolding renew_near_expiry ◌>>=◌ perform pure
    leave_far h = rw h

  module _ (nonzero : (expires_at == 0) ≡ false)
      (later : ltb expires_at (W.now s.trace) ≡ false) where
    unexpired : Unexpired W c s
    unexpired = (ground arith, ground arith)

    module _ (x : Secret) (found : W.get_secret (clocked W c s).trace (secret_key W c s) ≡ good x)
        (no_foreign : has_invalid_key x.contents ≡ false)
        (e : check ≡ check_token W c expires_at x (looked_up W c s)) where
      sound : Sound W c s x
      sound = (unexpired, found, has_invalid_key-false x.contents no_foreign)

      of_left :
          (u : State)
          → Vouched W c s x (token_of W c s x) u
          → IsFar W c s u
          → check ≡ (ok tt, called Call.read_clock u)
          → Decision W c s check
      of_left u v n o = elim (token_cases (lookup "token" x.contents)) [
        | inl has ↦ left_alone x u sound has v n o
        | inr lacks ↦
            left_without_token x u sound lacks
              (subst (λ token. Vouched W c s x token u) (LacksToken-read x.contents lacks) v) n o
      ]

      of_verdict : (b : Bool) (u : State) → valid_of x ≡ (ok b, u) → Decision W c s check
      of_verdict false u v = refused x u sound v (e ∙ token_refused x u v)
      of_verdict true u v =
          elim (Bool-cases (leb_ℤ (time_until expires_at (W.now u.trace)) c.time_before_expiry)) [
            | inl n ↦
                near_expiry x u sound (v, is_access_token_valid-Accepted W _ _ _ v) n
                  (e ∙ token_accepted x u v ∙ renew_near x u n)
            | inr n ↦
                of_left u (v, is_access_token_valid-Accepted W _ _ _ v) n
                  (e ∙ token_accepted x u v ∙ leave_far x u n)
          ]

      of_token : Decision W c s check
      of_token =
          let (b, u, v, few) =
            is_access_token_valid_total W (username_of W c s x) (token_of W c s x)
              (looked_up W c s) in
          of_verdict b u v

    of_reply :
        (r : Reply ApiError Secret)
        → W.get_secret (clocked W c s).trace (secret_key W c s) ≡ r
        → check ≡ check_secret W c expires_at r (looked_up W c s)
        → Decision W c s check
    unfolding check_secret halt
    of_reply (bad (not_found e)) g k = missing e unexpired g k
    of_reply (bad (conflict e)) g k = unreadable (conflict e) unexpired g (λ m h. cc) k
    of_reply (bad (other_failure e)) g k = unreadable (other_failure e) unexpired g (λ m h. cc) k
    of_reply (good x) g k = elim (Bool-cases (has_invalid_key x.contents)) [
      | inl h ↦ foreign_key x unexpired g (has_invalid_key-true x.contents h) (k ∙ rw h)
      | inr h ↦ of_token x g h (k ∙ rw h)
    ]

  -- The check renews the token if it was never issued or has expired; or else if its secret is
  -- missing or holds a foreign key, if GitHub does not accept what is under the key of the token,
  -- or if the threshold before its expiry is reached. If the secret cannot be read for another
  -- reason, the check returns that error. In what is left it succeeds without a renewal: GitHub has
  -- accepted the token of the secret, or the secret lacks one and GitHub has accepted an empty one.
  pub check_expiry_and_update_access_token-Decision :
      Decision W c s (check_expiry_and_update_access_token W c s)
  check_expiry_and_update_access_token-Decision = elim (Bool-cases (expires_at == 0)) [
    | inl h ↦ never_issued (ground arith) (check_zero h)
    | inr h ↦ elim (Bool-cases (ltb expires_at (W.now s.trace))) [
      | inl k ↦ expired (ground arith) (ground arith) (check_past h k)
      | inr k ↦
          of_reply h k (W.get_secret (clocked W c s).trace (secret_key W c s)) refl
            (check_later h k)
    ]
  ]
