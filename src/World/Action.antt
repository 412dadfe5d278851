-- ===== src/World/Action.antt =====
-- Go code that calls the world, may return an error and mutates the GithubApp that it was handed.
--
-- One Reconcile shares one *GithubApp with all that it calls, so the object stands in the state.
-- What was written before an error stays written: the state comes back beside the error.
use github_app_operator.Base.{String, Option, none, some}
use github_app_operator.Api.Types.{GithubApp}
use github_app_operator.World.{Trace, Reply, good, bad}

pub record State : Type 0 where
  pub app : GithubApp
  pub trace : Trace

-- How a call ends early: with an error, by its text; by a panic; or, in the model alone, because
-- a loop used up its fuel.
pub data Stop : Type 0 where
  failed : String → Stop
  panicked : Stop
  out_of_fuel : Stop

pub data Result (A : Type 0) : Type 0 where
  ok : A → Result A
  stop : Stop → Result A

abbrev pub Action : Type 0 → Type 0
Action A = State → Result A × State

module _ {A : Type 0} where
  unfoldable pub pure : A → Action A
  pure a s = (ok a, s)

  unfoldable pub halt : Stop → Action A
  halt e s = (stop e, s)

  unfoldable pub lift : Result A → Action A
  lift r s = (r, s)

module _ {A B : Type 0} where
  abbrev pub continue : Result A → (A → Action B) → Action B
  continue (ok a) f s = f a s
  continue (stop e) f s = (stop e, s)

  infixl 10 ◌>>=◌ ◌>>◌
  unfoldable pub ◌>>=◌ : Action A → (A → Action B) → Action B
  unfolding pure halt lift
  ◌>>=◌ m f s = let (r, s') = m s in continue r f s'

  abbrev pub ◌>>◌ : Action A → Action B → Action B
  m >> n = m >>= λ _. n

-- `return ..., fmt.Errorf(e)`
abbrev pub fail : {A : Type 0} → String → Action A
fail e = halt (failed e)

-- `githubApp` as it stands, and an assignment to its fields.
unfoldable pub current_app : Action GithubApp
current_app s = (ok s.app, s)

unfoldable pub set_app : GithubApp → Action (Unit {0})
set_app a s = (ok tt, record s { app = a })

-- `if err := m(); err != nil { return handler(err) }`, where a panic passes through.
abbrev pub caught : {A : Type 0} → Result A → (String → Action A) → Action A
caught (ok a) handler s = (ok a, s)
caught (stop (failed e)) handler s = handler e s
caught (stop panicked) handler s = (stop panicked, s)
caught (stop out_of_fuel) handler s = (stop out_of_fuel, s)

unfoldable pub on_error : {A : Type 0} → Action A → (String → Action A) → Action A
on_error m handler s = let (r, s') = m s in caught r handler s'

-- `return fmt.Errorf(prefix + "%v", err)`
unfoldable pub wrap_error : {A : Type 0} → (String → String) → Action A → Action A
unfolding on_error halt
wrap_error text m = on_error m (λ e. fail (text e))

-- `defer after()`, which runs however m ends.
unfoldable pub finally : {A : Type 0} → Action A → Action (Unit {0}) → Action A
finally m after s = let (r, s') = m s in (r, (after s').1)

-- `if err != nil { return ..., fmt.Errorf(text(err)) }`
abbrev pub no_error : {E : Type 0} → (E → String) → Option E → Result (Unit {0})
no_error text none = ok tt
no_error text (some e) = stop (failed (text e))

-- The same for a value with its error.
abbrev pub need : {E A : Type 0} → (E → String) → Reply E A → Result A
need text (good a) = ok a
need text (bad e) = stop (failed (text e))
