-- ===== src/Controller/Setup/Laws.antt =====
-- What the set-up reads from the claims of the service account's token.
use github_app_operator.Base.{String, ◌≡◌, sym, subst, ap, ◌↔◌, ◌∙◌, Option, none, some}
use github_app_operator.World.{World, good}
use github_app_operator.World.Action.{State, ok, pure, lift, ◌>>=◌}
use github_app_operator.World.Invert.{perform-ok, bind-ok, lift-ok, pure-ok, need-ok}
use github_app_operator.Controller.Setup.{
  Json, text, object, other, Fields, get_field, as_object, as_text, Process, map_claims,
  account_of_claims, get_service_account_and_namespace,
}

-- The claims hold the name and the namespace where Kubernetes puts them.
pub record Holds (claims : Fields) (name namespace : String) : Type 0 where
  pub kubernetes : Fields
  pub account : Fields
  pub at_kubernetes : get_field "kubernetes.io" claims ≡ object kubernetes
  pub at_account : get_field "serviceaccount" kubernetes ≡ object account
  pub at_namespace : get_field "namespace" kubernetes ≡ text namespace
  pub at_name : get_field "name" account ≡ text name

as_object-ok : (m : String) (j : Json) {fs : Fields} → as_object m j ≡ ok fs → j ≡ object fs
as_object-ok m (object fs) h = cc
as_object-ok m (text x) h = cc
as_object-ok m other h = cc

as_text-ok : (m : String) (j : Json) {x : String} → as_text m j ≡ ok x → j ≡ text x
as_text-ok m (object fs) h = cc
as_text-ok m (text x) h = cc
as_text-ok m other h = cc

some_injective : {A : Type 0} {x y : A} → some x ≡ some y → x ≡ y
some_injective h = cc

map_claims-ok : (r : Option Fields) {fs : Fields} → map_claims r ≡ ok fs → r ≡ some fs
map_claims-ok (some gs) h = cc
map_claims-ok none h = cc

-- The claims from which the account was read.
account_found :
    (parsed : Option Fields) (s : State) {r : String × String} {t : State}
    → account_of_claims parsed s ≡ (ok r, t)
    → (claims : Fields) × (parsed ≡ some claims) × Holds claims r.0 r.1
unfolding account_of_claims
account_found parsed s h =
    let (claims, s₁, e₁, h₁) = bind-ok _ _ s h in
    let (kubernetes, s₂, e₂, h₂) = bind-ok _ _ s₁ h₁ in
    let (account, s₃, e₃, h₃) = bind-ok _ _ s₂ h₂ in
    let (n, s₄, e₄, h₄) = bind-ok _ _ s₃ h₃ in
    let (m, s₅, e₅, h₅) = bind-ok _ _ s₄ h₄ in
    let holds : Holds claims m n = record {
      kubernetes = kubernetes;
      account = account;
      at_kubernetes = as_object-ok _ _ (lift-ok _ s₁ e₂).0;
      at_account = as_object-ok _ _ (lift-ok _ s₂ e₃).0;
      at_namespace = as_text-ok _ _ (lift-ok _ s₃ e₄).0;
      at_name = as_text-ok _ _ (lift-ok _ s₄ e₅).0;
    } in
    (
      claims,
      map_claims-ok parsed (lift-ok _ s e₁).0,
      subst (λ (x : String × String). Holds claims x.0 x.1) (pure-ok _ s₅ h₅).0 holds,
    )

module _ (claims : Fields) (s : State) (name namespace : String) where
  same_claims :
      {cs : Fields} → some claims ≡ some cs → Holds cs name namespace → Holds claims name namespace
  same_claims e h = subst (λ x. Holds x name namespace) (sym (some_injective e)) h

  account_read :
      Holds claims name namespace → account_of_claims (some claims) s ≡ (ok (name, namespace), s)
  unfolding account_of_claims ◌>>=◌ lift pure
  account_read h = rw (h.at_kubernetes, h.at_account, h.at_namespace, h.at_name)

  -- The name and the namespace of the service account are read from the claims of its token
  -- exactly where Kubernetes puts them.
  pub account_of_claims-Holds :
      (account_of_claims (some claims) s ≡ (ok (name, namespace), s)) ↔ Holds claims name namespace
  account_of_claims-Holds =
      ((λ h. let (cs, e, k) = account_found (some claims) s h in same_claims e k), account_read)

-- What a service account that was found rests on.
pub record Account (W : World) (p : Process) (path : String) (s : State) (name namespace : String)
    : Type 0 where
  pub token : String
  pub claims : Fields
  pub mounted : W.read_file s.trace path ≡ good token
  pub parsed : p.parse_unverified token ≡ good (some claims)
  pub holds : Holds claims name namespace

-- The service account is that of the claims of the token in the file; it is found only if the file
-- is read, the token parses, and its claims hold it.
pub get_service_account_and_namespace-Account :
    (W : World) (p : Process) (path : String) (s : State) {r : String × String} {t : State}
    → get_service_account_and_namespace W p path s ≡ (ok r, t)
    → Account W p path s r.0 r.1
unfolding get_service_account_and_namespace
get_service_account_and_namespace-Account W p path s h =
    let (f, s₁, e₁, h₁) = bind-ok _ _ s h in
    let (token, s₂, e₂, h₂) = bind-ok _ _ s₁ h₁ in
    let (parsed, s₃, e₃, h₃) = bind-ok _ _ s₂ h₂ in
    let (claims, same, holds) = account_found parsed s₃ h₃ in
    record {
      token = token;
      claims = claims;
      mounted = perform-ok _ _ s e₁ ∙ need-ok _ f (lift-ok _ s₁ e₂).0;
      parsed = need-ok _ _ (lift-ok _ s₂ e₃).0 ∙ ap good same;
      holds = holds;
    }
