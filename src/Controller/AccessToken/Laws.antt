-- ===== src/Controller/AccessToken/Laws.antt =====
-- What a successful createOrUpdateAccessToken has done.
use github_app_operator.Base.{String, ◌≡◌, ◌∙◌, inl, inr, none, arith}
use github_app_operator.Api.Types.{Time, Bytes, GithubApp, Secret}
use github_app_operator.World.{
  World, Trace, Reply, good, bad, ApiError, not_found, conflict, other_failure, Response,
}
use github_app_operator.World.Action.{State, Result, ok, halt}
use github_app_operator.World.Invert.{
  current_app-bind, perform-ok, bind-ok, lift-ok, need-ok, no_error-ok, on_error-ok, wrap_error-ok,
}
use github_app_operator.Controller.Config.{Config}
use github_app_operator.Controller.PrivateKey.{get_private_key}
use github_app_operator.Controller.Token.{generate_access_token}
use github_app_operator.Controller.Token.Laws.{Granted, generate_access_token-Granted}
use github_app_operator.Controller.Status.{with_expiry}
use github_app_operator.Controller.Status.Laws.{
  Ending, stored, refused, update_github_app_status_with_retry-Ending,
}
use github_app_operator.Controller.AccessToken.{
  new_secret, refreshed, announce, create_access_token_secret, update_access_token_secret,
  store_token, request_access_token, create_or_update_access_token,
}

-- A write that the API server took: a new secret, or the old one refreshed, with the token.
pub data Written (W : World) (token : String) : Type 0 where
  created :
      (t : Trace) (a : GithubApp) (name : String) (x : Secret)
      → W.set_controller_reference a (new_secret a name token) ≡ good x
      → W.create_secret t x ≡ none
      → Written W token
  updated :
      (t : Trace) (x : Secret) → W.update_secret t (refreshed x token) ≡ none → Written W token

-- A status with the expiry that the API server took.
pub record ExpiryStored (W : World) (expires_at : Time) : Type 0 where
  pub trace : Trace
  pub app : GithubApp
  pub back : GithubApp
  pub taken : W.update_status trace (with_expiry expires_at app) ≡ good back

module _ (W : World) where
  Ending-stored :
      (t : Time) (s : State) {out : Result (Unit {0}) × State} {u : State}
      → Ending W t 3 0 s out
      → out ≡ (ok tt, u)
      → ExpiryStored W t
  Ending-stored t s (stored before back h o n) e = record {
    trace = before.trace;
    app = before.app;
    back = back;
    taken = h;
  }
  Ending-stored t s (refused x o n) e = cc

  announce-ok :
      (x y : String) (t : Time) (s : State) {u : State}
      → announce W x y t s ≡ (ok tt, u)
      → ExpiryStored W t
  unfolding announce
  announce-ok x y t s h =
      let (a, v, e, k) = bind-ok _ _ s h in
      Ending-stored t s (update_github_app_status_with_retry-Ending W t 3 s (omega arith))
        (wrap_error-ok _ _ s e)

  create-ok :
      (name token : String) (t : Time) (s : State) {u : State}
      → create_access_token_secret W name token t s ≡ (ok tt, u)
      → Written W token × ExpiryStored W t
  unfolding create_access_token_secret
  create-ok name token t s h =
      let (a, s₁, e₁, h₁) = bind-ok _ _ s h in
      let (x, s₂, e₂, h₂) = bind-ok _ _ s₁ h₁ in
      let (r, s₃, e₃, h₃) = bind-ok _ _ s₂ h₂ in
      let (y, s₄, e₄, h₄) = bind-ok _ _ s₃ h₃ in
      let (z, s₅, e₅, h₅) = bind-ok _ _ s₄ h₄ in
      (
        created s₂.trace a name x (need-ok _ _ (lift-ok _ s₁ e₂).0)
            (perform-ok _ _ s₂ e₃ ∙ no_error-ok _ r (lift-ok _ s₃ e₄).0),
        announce-ok _ _ t s₅ h₅,
      )

  update-ok :
      (existing : Secret) (name token : String) (t : Time) (s : State) {u : State}
      → update_access_token_secret W existing name token t s ≡ (ok tt, u)
      → Written W token × ExpiryStored W t
  unfolding update_access_token_secret
  update-ok existing name token t s h =
      let (a, s₁, e₁, h₁) = bind-ok _ _ s h in
      let (x, s₂, e₂, h₂) = bind-ok _ _ s₁ h₁ in
      let (r, s₃, e₃, h₃) = bind-ok _ _ s₂ h₂ in
      let (y, s₄, e₄, h₄) = bind-ok _ _ s₃ h₃ in
      let (z, s₅, e₅, h₅) = bind-ok _ _ s₄ h₄ in
      (
        updated s₂.trace x (perform-ok _ _ s₂ e₃ ∙ no_error-ok _ r (lift-ok _ s₃ e₄).0),
        announce-ok _ _ t s₄ e₅,
      )

  store-ok :
      (name : String) (r : Response) (reply : Reply ApiError Secret) (s : State) {u : State}
      → store_token W name r reply s ≡ (ok tt, u)
      → Written W r.token × ExpiryStored W r.expires_at
  unfolding store_token halt
  store-ok name r (good existing) s h = update-ok existing name r.token r.expires_at s h
  store-ok name r (bad (not_found e)) s h = create-ok name r.token r.expires_at s h
  store-ok name r (bad (conflict e)) s h = cc
  store-ok name r (bad (other_failure e)) s h = cc

  module _ (c : Config) where
    -- What a renewal rests on and leaves behind.
    pub record Renewed (s : State) : Type 0 where
      pub key : Bytes
      pub path : String
      pub keyed : State
      pub granted_at : State
      pub response : Response
      pub provided : get_private_key W c s ≡ (ok (key, path), keyed)
      pub granted :
          Granted W keyed.app.spec.app_id keyed.app.spec.install_id key keyed response granted_at
      pub written : Written W response.token
      pub expiry_stored : ExpiryStored W response.expires_at

    pub request-ok :
        (a : GithubApp) (key : Bytes) (s : State) {r : Response} {u : State}
        → request_access_token W c a key s ≡ (ok r, u)
        → generate_access_token W a.spec.app_id a.spec.install_id key s ≡ (ok r, u)
    unfolding request_access_token halt
    request-ok a key s h = elim (on_error-ok _ _ s h) [
      | inl e ↦ e
      | inr (e, v, p, q) ↦ let (x, w, e₁, h₁) = bind-ok _ _ v q in cc
    ]

    -- A renewal that succeeds has a private key from getPrivateKey; GitHub granted a token for the
    -- GithubApp's ids on a JWT signed with that key; the API server took a secret with that token;
    -- and it took a status with the token's expiry.
    pub create_or_update_access_token-Renewed :
        (s : State) {u : State} → create_or_update_access_token W c s ≡ (ok tt, u) → Renewed s
    unfolding create_or_update_access_token
    create_or_update_access_token-Renewed s h =
        let (found, s₁, e₁, h₁) = bind-ok _ _ s h in
        let (r, s₃, e₃, h₃) = bind-ok _ _ s₁ (current_app-bind _ s₁ h₁) in
        let (reply, s₄, e₄, h₄) = bind-ok _ _ s₃ h₃ in
        let (written, stored_expiry) = store-ok _ r reply s₄ h₄ in
        record {
          key = found.0;
          path = found.1;
          keyed = s₁;
          granted_at = s₃;
          response = r;
          provided = e₁;
          granted =
              generate_access_token-Granted W _ _ found.0 s₁ (request-ok s₁.app found.0 s₁ e₃);
          written = written;
          expiry_stored = stored_expiry;
        }
