-- ===== src/World/Since.antt =====
-- What an action may do: invariants of its state, and the calls that it adds to the trace.
use github_app_operator.Base.{String, ◌≡◌, refl, sym, subst, Bool, true, false, ◌∷◌, if◌then◌else◌}
use github_app_operator.Api.Types.{GithubApp}
use github_app_operator.World.{World, Call, Trace}
use github_app_operator.World.Action.{
  Action, State, Result, ok, stop, Stop, failed, panicked, out_of_fuel, pure, halt, lift, ◌>>=◌,
  current_app, set_app, on_error, wrap_error, finally, continue, caught,
}
use github_app_operator.World.Calls.{perform, update_status}

-- Every call that turned the trace t₀ into this one satisfies P.
pub data Since (P : Call → Type 0) (t₀ : Trace) : Trace → Type 0 where
  no_more : Since P t₀ t₀
  and_then : {c : Call} {t : Trace} → P c → Since P t₀ t → Since P t₀ (c ∷ t)

-- The action keeps I, however it ends.
pub record Keeps {A : Type 0} (I : State → Type 0) (m : Action A) : Type 0 where
  pub at : (s : State) → I s → I (m s).1

module _ {I : State → Type 0} where
  pub Keeps-pure : {A : Type 0} (a : A) → Keeps I (pure a)
  unfolding pure
  Keeps-pure a = record { at = λ s h. h }

  pub Keeps-halt : {A : Type 0} (e : Stop) → Keeps I (halt {A = A} e)
  unfolding halt
  Keeps-halt e = record { at = λ s h. h }

  pub Keeps-lift : {A : Type 0} (r : Result A) → Keeps I (lift r)
  unfolding lift
  Keeps-lift r = record { at = λ s h. h }

  pub Keeps-current_app : Keeps I current_app
  unfolding current_app
  Keeps-current_app = record { at = λ s h. h }

  Keeps-continue :
      {A B : Type 0} (r : Result A) (f : A → Action B)
      → ((a : A) → Keeps I (f a))
      → (s : State) → I s
      → I (continue r f s).1
  Keeps-continue (ok a) f kf s h = (kf a).at s h
  Keeps-continue (stop e) f kf s h = h

  pub Keeps-bind :
      {A B : Type 0} (m : Action A) (f : A → Action B)
      → Keeps I m
      → ((a : A) → Keeps I (f a))
      → Keeps I (m >>= f)
  unfolding ◌>>=◌
  Keeps-bind m f km kf = record {
    at = λ s h. let (r, s') = m s in Keeps-continue r f kf s' (km.at s h);
  }

  -- The same, where the rest may use what the first action gave.
  pub Keeps-bind-value :
      {A B : Type 0} (m : Action A) (f : A → Action B)
      → Keeps I m
      → ((s : State) (a : A) (u : State) → m s ≡ (ok a, u) → Keeps I (f a))
      → Keeps I (m >>= f)
  unfolding ◌>>=◌
  Keeps-bind-value {A} m f km kf = record { at = λ s h. split s (m s).0 (m s).1 refl (km.at s h) }
    where
      split : (s : State) (r : Result A) (u : State) → m s ≡ (r, u) → I u → I (continue r f u).1
      split s (ok a) u e h = (kf s a u e).at u h
      split s (stop x) u e h = h

  pub Keeps-if :
      {A : Type 0} (b : Bool) (m n : Action A)
      → (b ≡ true → Keeps I m)
      → (b ≡ false → Keeps I n)
      → Keeps I (if b then m else n)
  Keeps-if true m n km kn = km refl
  Keeps-if false m n km kn = kn refl

  Keeps-caught :
      {A : Type 0} (r : Result A) (handler : String → Action A)
      → ((e : String) → Keeps I (handler e))
      → (s : State) → I s
      → I (caught r handler s).1
  Keeps-caught (ok a) handler k s h = h
  Keeps-caught (stop (failed e)) handler k s h = (k e).at s h
  Keeps-caught (stop panicked) handler k s h = h
  Keeps-caught (stop out_of_fuel) handler k s h = h

  pub Keeps-on_error :
      {A : Type 0} (m : Action A) (handler : String → Action A)
      → Keeps I m
      → ((e : String) → Keeps I (handler e))
      → Keeps I (on_error m handler)
  unfolding on_error
  Keeps-on_error m handler km kh = record {
    at = λ s h. let (r, s') = m s in Keeps-caught r handler kh s' (km.at s h);
  }

  pub Keeps-wrap_error :
      {A : Type 0} (text : String → String) (m : Action A) → Keeps I m → Keeps I (wrap_error text m)
  unfolding wrap_error
  Keeps-wrap_error text m km = Keeps-on_error m _ km (λ e. Keeps-halt _)

  pub Keeps-finally :
      {A : Type 0} (m : Action A) (after : Action (Unit {0}))
      → Keeps I m
      → Keeps I after
      → Keeps I (finally m after)
  unfolding finally
  Keeps-finally m after km ka = record { at = λ s h. ka.at (m s).1 (km.at s h) }

-- The calls since t₀.
abbrev pub Only : (Call → Type 0) → Trace → State → Type 0
Only P t₀ s = Since P t₀ s.trace

module _ {P : Call → Type 0} {t₀ : Trace} where
  pub Keeps-perform :
      {A : Type 0} (c : Call) (answer : Trace → A) → P c → Keeps (Only P t₀) (perform c answer)
  unfolding perform
  Keeps-perform c answer p = record { at = λ s h. and_then p h }

  -- An update of the status writes the GithubApp, too.
  pub Only-update_status :
      (W : World)
      → ((b : GithubApp) → P (Call.update_status b))
      → Keeps (Only P t₀) (update_status W)
  unfolding update_status
  Only-update_status W p = record { at = λ s h. and_then (p s.app) h }

  pub Only-set_app : (b : GithubApp) → Keeps (Only P t₀) (set_app b)
  unfolding set_app
  Only-set_app b = record { at = λ s h. h }

-- The same, with the GithubApp still a.
abbrev pub Fixed : GithubApp → (Call → Type 0) → Trace → State → Type 0
Fixed a P t₀ s = (s.app ≡ a) × Since P t₀ s.trace

module _ {a : GithubApp} {P : Call → Type 0} {t₀ : Trace} where
  pub Fixed-perform :
      {A : Type 0} (c : Call) (answer : Trace → A) → P c → Keeps (Fixed a P t₀) (perform c answer)
  unfolding perform
  Fixed-perform c answer p = record { at = λ s h. (h.0, and_then p h.1) }

  -- What current_app gives is known.
  pub Fixed-current_app :
      {B : Type 0} (f : GithubApp → Action B)
      → Keeps (Fixed a P t₀) (f a)
      → Keeps (Fixed a P t₀) (current_app >>= f)
  unfolding current_app ◌>>=◌
  Fixed-current_app f k = record {
    at = λ s h. subst (λ x. Fixed a P t₀ (f x s).1) (sym h.0) (k.at s h);
  }

pub Since-mono :
    {P Q : Call → Type 0} {t₀ t : Trace} → ((c : Call) → P c → Q c) → Since P t₀ t → Since Q t₀ t
Since-mono f no_more = no_more
Since-mono f (and_then {c} p h) = and_then (f c p) (Since-mono f h)

pub Since-trans :
    {P : Call → Type 0} {t₀ t₁ t₂ : Trace} → Since P t₀ t₁ → Since P t₁ t₂ → Since P t₀ t₂
Since-trans h no_more = h
Since-trans h (and_then p k) = and_then p (Since-trans h k)

-- An action with a known bound on its calls keeps any wider one.
pub Keeps-calls :
    {A : Type 0} {a : GithubApp} {P Q : Call → Type 0} {t₀ : Trace} (m : Action A)
    → ((c : Call) → P c → Q c)
    → ((s : State) → s.app ≡ a → Fixed a P s.trace (m s).1)
    → Keeps (Fixed a Q t₀) m
Keeps-calls m f h = record {
  at = λ s (e, k). let (e', calls) = h s e in (e', Since-trans k (Since-mono f calls));
}

-- The action leads from I to K, however it ends.
pub record Enters {A : Type 0} (I K : State → Type 0) (m : Action A) : Type 0 where
  pub at : (s : State) → I s → K (m s).1

module _ {I K : State → Type 0} (weaken : (s : State) → I s → K s) where
  Enters-continue :
      {A B : Type 0} (r : Result A) (f : A → Action B)
      → ((a : A) → Enters I K (f a))
      → (s : State) → I s
      → K (continue r f s).1
  Enters-continue (ok a) f kf s h = (kf a).at s h
  Enters-continue (stop e) f kf s h = weaken s h

  pub Enters-bind :
      {A B : Type 0} (m : Action A) (f : A → Action B)
      → Keeps I m
      → ((a : A) → Enters I K (f a))
      → Enters I K (m >>= f)
  unfolding ◌>>=◌
  Enters-bind m f km kf = record {
    at = λ s h. let (r, s') = m s in Enters-continue r f kf s' (km.at s h);
  }

  -- The same, where the rest may use what the first action gave.
  pub Enters-bind-value :
      {A B : Type 0} (m : Action A) (f : A → Action B)
      → Keeps I m
      → ((s : State) (a : A) (u : State) → m s ≡ (ok a, u) → Enters I K (f a))
      → Enters I K (m >>= f)
  unfolding ◌>>=◌
  Enters-bind-value {A} m f km kf = record { at = λ s h. split s (m s).0 (m s).1 refl (km.at s h) }
    where
      split : (s : State) (r : Result A) (u : State) → m s ≡ (r, u) → I u → K (continue r f u).1
      split s (ok a) u e h = (kf s a u e).at u h
      split s (stop x) u e h = weaken u h

  pub Enters-lift :
      {A B : Type 0} (r : Result A) (f : A → Action B)
      → ((a : A) → r ≡ ok a → Enters I K (f a))
      → Enters I K (lift r >>= f)
  unfolding ◌>>=◌ lift
  Enters-lift (ok a) f kf = kf a refl
  Enters-lift (stop e) f kf = record { at = λ s h. weaken s h }

  pub Enters-Keeps : {A : Type 0} (m : Action A) → Keeps K m → Enters I K m
  Enters-Keeps m k = record { at = λ s h. k.at s (weaken s h) }

pub Enters-current_app :
    {a : GithubApp} {P : Call → Type 0} {t₀ : Trace} {K : State → Type 0} {B : Type 0}
    (f : GithubApp → Action B)
    → Enters (Fixed a P t₀) K (f a)
    → Enters (Fixed a P t₀) K (current_app >>= f)
unfolding current_app ◌>>=◌
Enters-current_app {K} f k = record { at = λ s h. subst (λ x. K (f x s).1) (sym h.0) (k.at s h) }

pub ruleset keeps_rules = (
  Keeps-pure, Keeps-halt, Keeps-lift, Keeps-bind, Keeps-if, Keeps-on_error, Keeps-wrap_error,
  Keeps-finally,
)

pub ruleset fixed_rules = (keeps_rules, Fixed-perform, Fixed-current_app)

pub ruleset only_rules =
    (keeps_rules, Keeps-current_app, Keeps-perform, Only-update_status, Only-set_app)
