-- ===== src/Controller/AccessToken/Stored.antt =====
-- createOrUpdateAccessToken of internal/controller/githubapp_controller.go: what is read back from
-- the secret that it has stored.
use github_app_operator.Base.Int.{ℤ}
use github_app_operator.Base.{String, ◌≡◌, refl, sym, ap, ◌∙◌, subst, inl, inr, Option, none, ◌∷◌}
use github_app_operator.Api.Types.{Time, GithubApp, Secret, Bytes}
use github_app_operator.World.{
  World, Call, Trace, Reply, good, bad, ApiError, not_found, conflict, other_failure, Response,
  api_message,
}
use github_app_operator.World.Action.{Action, State, Result, ok, halt, lift, no_error, ◌>>=◌, ◌>>◌}
use github_app_operator.World.Calls.{perform, get_secret}
use github_app_operator.World.Since.{
  Since, no_more, Keeps, Keeps-bind, Only, Fixed, fixed_rules, Keeps-perform, Keeps-current_app,
}
use github_app_operator.World.Invert.{current_app-bind, lift-bind, bind-ok, need-ok, no_error-ok}
use github_app_operator.Controller.Config.{Config}
use github_app_operator.Controller.PrivateKey.Safety.{get_private_key-KeyCall}
use github_app_operator.Controller.Retry.Safety.{with_retries_safe}
use github_app_operator.Controller.Token.{generate_access_token}
use github_app_operator.Controller.Token.Laws.{Granted, generate_access_token-Granted}
use github_app_operator.Controller.AccessToken.Laws.{request-ok}
use github_app_operator.Controller.AccessToken.Announce.{announce-Only}
use github_app_operator.Controller.AccessToken.{
  new_secret, refreshed, create_access_token_secret, update_access_token_secret, store_token,
  request_access_token, create_or_update_access_token,
}
use github_app_operator.Controller.AccessToken.Safety.{delete_keys_self}
use github_app_operator.Controller.AccessToken.Kept.{
  key_of, LeavesSecret-announcing, ServesSecrets, StoredToken, token_key,
}

-- The token that GitHub granted to a renewal for the GithubApp a, and that is stored for it.
pub record Renewal (W : World) (a : GithubApp) (t : Trace) : Type 0 where
  pub response : Response
  pub key : Bytes
  pub asked_at : State
  pub granted_at : State
  pub granted : Granted W a.spec.app_id a.spec.install_id key asked_at response granted_at
  pub stored : StoredToken W (token_key a) response.token t

-- A write that succeeds, and what follows it.
written_then :
    {P : Call → Type 0} (c : Call) (answer : Trace → Option ApiError) (n : Action (Unit {0}))
    (s : State) {u : State}
    → Keeps (Only P (c ∷ s.trace)) n
    → (perform c answer >>= λ e. lift (no_error api_message e) >> n) s ≡ (ok tt, u)
    → (answer s.trace ≡ none) × Since P (c ∷ s.trace) u.trace
unfolding perform ◌>>=◌
written_then {P} c answer n s k h =
    let after : State = record s { trace = c ∷ s.trace } in
    let (x, e, run) = lift-bind (no_error api_message (answer s.trace)) (λ y. n) after h in
    (
      no_error-ok api_message (answer s.trace) e,
      subst (λ (r : Result (Unit {0}) × State). Since P (c ∷ s.trace) r.1.trace) run
          (k.at after no_more),
    )

module _ (W : World) (serves : ServesSecrets W) where
  create-StoredToken :
      (name token : String) (expires_at : Time) (s : State) {u : State}
      → create_access_token_secret W name token expires_at s ≡ (ok tt, u)
      → StoredToken W (record { namespace = s.app.meta.namespace; name = name }) token u.trace
  unfolding create_access_token_secret
  create-StoredToken name token expires_at s h =
      let (x, e, h₁) = lift-bind _ _ s (current_app-bind _ s h) in
      let (same_key, same_contents, same_entries) =
        serves.owned s.app (new_secret s.app name token) x (need-ok _ _ e) in
      record {
        secret = x;
        before = s.trace;
        at = same_key;
        cleared = same_contents;
        entries = same_entries;
        taken = inl (
            written_then _ _ _ s
              (Keeps-bind _ _ (Keeps-perform _ _ tt)
                (λ v. announce-Only (LeavesSecret-announcing W _) _ _ _ expires_at))
              h₁);
      }

  update-StoredToken :
      (existing : Secret) (name token : String) (expires_at : Time) (s : State) {u : State}
      → update_access_token_secret W existing name token expires_at s ≡ (ok tt, u)
      → StoredToken W (key_of existing) token u.trace
  unfolding update_access_token_secret refreshed
  update-StoredToken existing name token expires_at s h =
      let (x, e, h₁) = lift-bind _ _ s (current_app-bind _ s h) in
      let (same_key, same_contents, same_entries) = serves.owned s.app existing x (need-ok _ _ e) in
      record {
        secret = refreshed x token;
        before = s.trace;
        at = same_key;
        cleared = delete_keys_self x.contents;
        entries = refl;
        taken = inr (
            written_then _ _ _ s
              (Keeps-bind _ _ (announce-Only (LeavesSecret-announcing W _) _ _ _ expires_at)
                (λ v. Keeps-bind _ _ Keeps-current_app (λ b. Keeps-perform _ _ tt)))
              h₁);
      }

  store-StoredToken :
      (name : String) (r : Response) (t : Trace) (reply : Reply ApiError Secret) (s : State)
      {u : State}
      → W.get_secret t (record { namespace = s.app.meta.namespace; name = name }) ≡ reply
      → store_token W name r reply s ≡ (ok tt, u)
      → StoredToken W (record { namespace = s.app.meta.namespace; name = name }) r.token u.trace
  unfolding store_token halt
  store-StoredToken name r t (good existing) s {u} g h =
      subst (λ k. StoredToken W k r.token u.trace) (serves.named t _ existing g)
        (update-StoredToken existing name r.token r.expires_at s h)
  store-StoredToken name r t (bad (not_found e)) s g h =
      create-StoredToken name r.token r.expires_at s h
  store-StoredToken name r t (bad (conflict e)) s g h = cc
  store-StoredToken name r t (bad (other_failure e)) s g h = cc

  generate_access_token-app :
      (app_id installation_id : ℤ) (key : Bytes) (s : State)
      → (generate_access_token W app_id installation_id key s).1.app ≡ s.app
  unfolding generate_access_token
  generate_access_token-app app_id installation_id key s =
      let kept : Keeps (Fixed s.app (λ c. Unit) s.trace)
          (generate_access_token W app_id installation_id key) =
        search (fixed_rules, with_retries_safe) depth 12 in
      (kept.at s (refl, no_more)).0

  stored_then :
      (r : Response) (s : State) {u : State}
      → (get_secret W (token_key s.app) >>= store_token W s.app.spec.access_token_secret r) s
        ≡ (ok tt, u)
      → StoredToken W (token_key s.app) r.token u.trace
  unfolding ◌>>=◌ perform
  stored_then r s h =
      let asked = record s { trace = Call.get_secret (token_key s.app) ∷ s.trace } in
      store-StoredToken s.app.spec.access_token_secret r s.trace
        (W.get_secret s.trace (token_key s.app)) asked refl h

  stored_for :
      (a : GithubApp) (r : Response) (s : State) {u : State}
      → s.app ≡ a
      → (get_secret W (token_key a) >>= store_token W a.spec.access_token_secret r) s ≡ (ok tt, u)
      → StoredToken W (token_key a) r.token u.trace
  stored_for a r s {u} e =
      subst
        (λ b.
          (get_secret W (token_key b) >>= store_token W b.spec.access_token_secret r) s ≡ (ok tt, u)
          → StoredToken W (token_key b) r.token u.trace)
        e (stored_then r s)

  renewed_then :
      (c : Config) (a : GithubApp) (key : Bytes) (s : State) {u : State}
      → s.app ≡ a
      → (request_access_token W c a key >>= λ r.
            get_secret W (token_key a) >>= store_token W a.spec.access_token_secret r)
          s
        ≡ (ok tt, u)
      → Renewal W a u.trace
  renewed_then c a key s same h =
      let (r, v, e, k) = bind-ok _ _ s h in
      let run = request-ok W c a key s e in
      record {
        response = r;
        key = key;
        asked_at = s;
        granted_at = v;
        granted = generate_access_token-Granted W _ _ key s run;
        stored =
            stored_for a r v
              (sym (ap (λ (x : Result Response × State). x.1.app) run)
                ∙ generate_access_token-app _ _ key s
                ∙ same)
              k;
      }

  -- After a renewal that succeeds, the access token secret of the GithubApp holds a token that
  -- GitHub has granted for its ids, provided that nobody but the operator writes to secrets.
  pub create_or_update_access_token-Renewal :
      (c : Config) (s : State) {u : State}
      → create_or_update_access_token W c s ≡ (ok tt, u)
      → Renewal W s.app u.trace
  unfolding create_or_update_access_token
  create_or_update_access_token-Renewal c s {u} h =
      let (found, s₁, e₁, h₁) = bind-ok _ _ s h in
      let same =
        sym (ap (λ (x : Result (Bytes × String) × State). x.1.app) e₁)
        ∙ (get_private_key-KeyCall W c s).0 in
      subst (λ a. Renewal W a u.trace) same
        (renewed_then c s₁.app found.0 s₁ refl (current_app-bind _ s₁ h₁))
