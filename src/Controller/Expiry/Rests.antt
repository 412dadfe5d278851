-- ===== src/Controller/Expiry/Rests.antt =====
-- checkExpiryAndUpdateAccessToken of internal/controller/githubapp_controller.go, after a renewal.
use github_app_operator.Base.{
  String, ◌≡◌, refl, sym, ap, ◌∙◌, subst, ◌≢◌, inl, inr, ◌≤◌, true, false, none, [], ◌∷◌, Map,
  lookup, arith, eq_iff, eq_refl, ltb, ◌==◌,
}
use github_app_operator.Base.Int.{leb_ℤ}
use github_app_operator.Api.Types.{Secret, ObjectKey, Bytes}
use github_app_operator.World.{World, Call, Trace, good}
use github_app_operator.World.Action.{State, ok}
use github_app_operator.World.Since.{Since, and_then, Since-trans}
use github_app_operator.Controller.Config.{Config, git_username}
use github_app_operator.Controller.Validity.{is_access_token_valid}
use github_app_operator.Controller.AccessToken.{token_data}
use github_app_operator.Controller.AccessToken.Kept.{
  LeavesSecret, ServesSecrets, StoredToken, key_of, token_key,
}
use github_app_operator.Controller.Expiry.{
  time_until, has_invalid_key, value_or_empty, check_secret, check_expiry_and_update_access_token,
}
use github_app_operator.Controller.Expiry.Decision.{
  called, clocked, looked_up, token_of, username_of,
}
use github_app_operator.Controller.Expiry.Laws.{check_later, token_accepted, leave_far}

-- A map that gives nothing but a token and a username has no other key.
no_invalid_key :
    (m : Map Bytes)
    → ((k : String) → k ≢ "token" → k ≢ "username" → lookup k m ≡ none)
    → has_invalid_key m ≡ false
unfolding has_invalid_key
no_invalid_key [] h = refl
no_invalid_key ((k, v) ∷ m) h =
    let rest = no_invalid_key m (λ j n p. ground (arith, h j n p)) in
    ground (arith, h k, rest, eq_refl k, eq_iff k "token", eq_iff k "username")

-- What is read of a secret with the entries that were stored.
entries_read :
    (token : String) (m : Map Bytes)
    → ((k : String) → lookup k m ≡ lookup k (token_data token))
    → (has_invalid_key m ≡ false)
      × (value_or_empty (lookup "token" m) ≡ token)
      × (value_or_empty (lookup "username" m) ≡ git_username)
entries_read token m h = (
  no_invalid_key m (λ k n p. h k ∙ ground (arith, eq_iff "token" k, eq_iff "username" k)),
  ap value_or_empty (h "token"),
  ap value_or_empty (h "username"),
)

module _ (W : World) (serves : ServesSecrets W) where
  -- A stored token is read back, as long as its secret is left alone.
  StoredToken-read :
      (k : ObjectKey) (token : String) (t u : Trace)
      → StoredToken W k token t
      → Since (LeavesSecret k) t u
      → (y : Secret) × (W.get_secret u k ≡ good y)
        × ((key : String) → lookup key y.contents ≡ lookup key (token_data token))
  StoredToken-read k token t u stored later =
      subst
        (λ m.
          (y : Secret) × (W.get_secret u k ≡ good y)
          × ((key : String) → lookup key y.contents ≡ lookup key m))
        stored.entries
        (subst
          (λ j.
            (y : Secret) × (W.get_secret u j ≡ good y)
            × ((key : String) → lookup key y.contents ≡ lookup key stored.secret.string_data))
          stored.at
          (elim stored.taken [
            | inl (taken, since) ↦
                serves.after_create stored.before u stored.secret taken stored.cleared
                  (since_written (Since-trans since later))
            | inr (taken, since) ↦
                serves.after_update stored.before u stored.secret taken stored.cleared
                  (since_written (Since-trans since later))
          ]))
    where
      since_written :
          {v : Trace} → Since (LeavesSecret k) v u → Since (LeavesSecret (key_of stored.secret)) v u
      since_written {v} h = subst (λ j. Since (LeavesSecret j) v u) (sym stored.at) h

  module _ (c : Config) (s : State) where
    read_lem :
        (y : Secret) {token : String} {u : State}
        → (s.app.status.expires_at == 0) ≡ false
        → ltb s.app.status.expires_at (W.now s.trace) ≡ false
        → W.get_secret (clocked W c s).trace (token_key s.app) ≡ good y
        → has_invalid_key y.contents ≡ false
        → token_of W c s y ≡ token
        → username_of W c s y ≡ git_username
        → is_access_token_valid W git_username token (looked_up W c s) ≡ (ok true, u)
        → leb_ℤ (time_until s.app.status.expires_at (W.now u.trace)) c.time_before_expiry ≡ false
        → check_expiry_and_update_access_token W c s ≡ (ok tt, called Call.read_clock u)
    unfolding check_secret
    read_lem y {token} {u} z l g n p q v f =
        check_later W c s z l
        ∙ rw (g, n) (token_accepted W c s y u (rw (p, q) v))
        ∙ leave_far W c s y u f

    -- A token that has been stored stays in use: if its secret is left alone, GitHub accepts the
    -- token, and the expiry in the status is set, not past, and further away than the threshold,
    -- then the check succeeds and makes no call but those that look at the clock, at the secret and
    -- at the validity of the token. The API server is taken to serve secrets as they were written.
    pub check_expiry_and_update_access_token-StoredToken :
        (t : Trace) {token : String} {u : State}
        → StoredToken W (token_key s.app) token t
        → Since (LeavesSecret (token_key s.app)) t s.trace
        → s.app.status.expires_at ≢ 0
        → W.now s.trace ≤ s.app.status.expires_at
        → is_access_token_valid W git_username token (looked_up W c s) ≡ (ok true, u)
        → leb_ℤ (time_until s.app.status.expires_at (W.now u.trace)) c.time_before_expiry ≡ false
        → check_expiry_and_update_access_token W c s ≡ (ok tt, called Call.read_clock u)
    check_expiry_and_update_access_token-StoredToken t {token} stored later n l v f =
        let (y, g, e) =
          StoredToken-read (token_key s.app) token t (clocked W c s).trace stored
            (and_then tt later) in
        let (clean, same_token, same_username) = entries_read token y.contents e in
        read_lem y (ground arith) (ground arith) g clean same_token same_username v f
