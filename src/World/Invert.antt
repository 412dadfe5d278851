-- ===== src/World/Invert.antt =====
-- What a successful action did on the way: inversion of each way to build one.
use github_app_operator.Base.{String, ◌≡◌, refl, ap, ◌⊎◌, inl, inr, Option, none, some}
use github_app_operator.Api.Types.{GithubApp}
use github_app_operator.World.{Call, Trace, Reply, good, bad}
use github_app_operator.World.Calls.{perform}
use github_app_operator.World.Action.{
  Action, State, Result, ok, stop, failed, panicked, out_of_fuel, halt, lift, ◌>>=◌, continue,
  on_error, caught, current_app, wrap_error, no_error, need, pure,
}

invert_continue :
    {A B : Type 0} (r : Result A) (f : A → Action B) (s : State) {b : B} {t : State}
    → continue r f s ≡ (ok b, t)
    → (a : A) × (r ≡ ok a) × (f a s ≡ (ok b, t))
invert_continue (ok a) f s h = (a, refl, h)
invert_continue (stop e) f s h = cc

-- Both parts of a successful bind succeeded.
pub bind-ok :
    {A B : Type 0} (m : Action A) (f : A → Action B) (s : State) {b : B} {t : State}
    → (m >>= f) s ≡ (ok b, t)
    → (a : A) × (u : State) × (m s ≡ (ok a, u)) × (f a u ≡ (ok b, t))
unfolding ◌>>=◌
bind-ok m f s h =
    let (r, u) = m s in let (a, e, k) = invert_continue r f u h in (a, u, ap (λ x. (x, u)) e, k)

-- A lifted result that succeeded: the value, and the state as it was.
pub lift-ok :
    {A : Type 0} (r : Result A) (s : State) {a : A} {t : State}
    → lift r s ≡ (ok a, t)
    → (r ≡ ok a) × (t ≡ s)
unfolding lift
lift-ok r s h = (cc, cc)

pub pure-ok :
    {A : Type 0} (x : A) (s : State) {a : A} {t : State} → pure x s ≡ (ok a, t) → (x ≡ a) × (t ≡ s)
unfolding pure
pure-ok x s h = (cc, cc)

pub need-ok :
    {E A : Type 0} (text : E → String) (r : Reply E A) {a : A} → need text r ≡ ok a → r ≡ good a
need-ok text (good a) h = cc
need-ok text (bad e) h = cc

pub no_error-ok :
    {E : Type 0} (text : E → String) (r : Option E) → no_error text r ≡ ok tt → r ≡ none
no_error-ok text none h = refl
no_error-ok text (some e) h = cc

module _ {A : Type 0} (m : Action A) (handler : String → Action A) (s : State) {a : A}
    {t : State} where
  -- Either the action succeeded, or its handler did.
  pub on_error-ok :
      on_error m handler s ≡ (ok a, t)
      → (m s ≡ (ok a, t))
        ⊎ ((e : String) × (u : State) × (m s ≡ (stop (failed e), u)) × (handler e u ≡ (ok a, t)))
  unfolding on_error
  on_error-ok h = let (r, u) = m s in split r u h
    where
      split :
          (r : Result A) (u : State)
          → caught r handler u ≡ (ok a, t)
          → (◌≡◌ {A = Result A × State} (r, u) (ok a, t))
            ⊎ ((e : String) × (v : State) × (◌≡◌ {A = Result A × State} (r, u) (stop (failed e), v))
                × (handler e v ≡ (ok a, t)))
      split (ok x) u h = inl h
      split (stop (failed e)) u h = inr (e, u, refl, h)
      split (stop panicked) u h = inl h
      split (stop out_of_fuel) u h = inl h

pub wrap_error-ok :
    {A : Type 0} (text : String → String) (m : Action A) (s : State) {a : A} {t : State}
    → wrap_error text m s ≡ (ok a, t)
    → m s ≡ (ok a, t)
unfolding wrap_error halt
wrap_error-ok text m s h = elim (on_error-ok m _ s h) [ inl e ↦ e | inr (e, u, p, q) ↦ cc q ]

pub Reply-cases :
    {E A : Type 0} (r : Reply E A) → ((a : A) × (r ≡ good a)) ⊎ ((e : E) × (r ≡ bad e))
Reply-cases (good a) = inl (a, refl)
Reply-cases (bad e) = inr (e, refl)

-- A call that was performed: its answer.
pub perform-ok :
    {A : Type 0} (c : Call) (answer : Trace → A) (s : State) {a : A} {u : State}
    → perform c answer s ≡ (ok a, u)
    → answer s.trace ≡ a
unfolding perform
perform-ok c answer s h = cc

-- The binds that leave the state as it is.
pub current_app-bind :
    {B : Type 0} (f : GithubApp → Action B) (s : State) {b : B} {t : State}
    → (current_app >>= f) s ≡ (ok b, t)
    → f s.app s ≡ (ok b, t)
unfolding ◌>>=◌ current_app
current_app-bind f s h = h

pub lift-bind :
    {A B : Type 0} (r : Result A) (f : A → Action B) (s : State) {b : B} {t : State}
    → (lift r >>= f) s ≡ (ok b, t)
    → (a : A) × (r ≡ ok a) × (f a s ≡ (ok b, t))
unfolding ◌>>=◌ lift
lift-bind r f s h = invert_continue r f s h
