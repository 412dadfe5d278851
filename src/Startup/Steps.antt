-- ===== src/Startup/Steps.antt =====
-- The calls of cmd/main.go that may end the process, and how they do it.
use github_app_operator.Base.{ℕ, String, Bool, Option, none, some, List, ◌∷◌}
use github_app_operator.Api.Types.{Duration}
use github_app_operator.World.{Reply}
use github_app_operator.Controller.Setup.{Fields}
use github_app_operator.Startup.Options.{Flags, TlsConfig, SchemeBuilder}

-- ctrl.Options, with the TLS options of the metrics server and of the webhook server.
pub record ManagerOptions : Type 0 where
  pub bind_address : String
  pub secure_serving : Bool
  pub metrics_tls_opts : List (TlsConfig → TlsConfig)
  pub webhook_tls_opts : List (TlsConfig → TlsConfig)
  pub health_probe_bind_address : String
  pub leader_election : Bool
  pub leader_election_id : String

-- The logger is set with the default for its option Development, which zap's own flags may change.
pub data Step : Type 0 where
  add_client_go_scheme : Step
  add_to_scheme : SchemeBuilder → Step
  set_logger : Bool → Step
  new_vault_client : Step
  get_config : Step
  new_clientset : Step
  new_manager : ManagerOptions → Step
  set_up_controller : String → Step
  set_up_webhook : Step
  add_healthz_check : Step
  add_readyz_check : Step
  start_manager : Step

-- The steps taken, the newest first.
abbrev pub Steps : Type 0
Steps = List Step

-- Where the process runs. `outcome` is the error of a step, from the steps before it.
pub record Host (Url : Type 0) : Type 0 where
  pub getenv : String → String
  pub parse_bool : String → Reply String Bool
  pub parse_url : String → Reply String Url
  -- flag.Parse, by the flags with their defaults; an error is the status of the exit
  pub parse_flags : Flags → Reply ℕ Flags
  pub parse_duration : String → Reply String Duration
  pub parse_unverified : String → Reply String (Option Fields)
  pub outcome : Steps → Step → Option String

-- A part of main goes on with a value, exits with a status, or panics.
pub data Ended (A : Type 0) : Type 0 where
  goes : A → Ended A
  exits : ℕ → Ended A
  panics : String → Ended A

abbrev pub Part : Type 0 → Type 0
Part A = Steps → Ended A × Steps

module _ {A : Type 0} where
  unfoldable pub pure : A → Part A
  pure a t = (goes a, t)

module _ {A B : Type 0} where
  abbrev pub continue : Ended A → (A → Part B) → Part B
  continue (goes a) f t = f a t
  continue (exits code) f t = (exits code, t)
  continue (panics e) f t = (panics e, t)

  infixl 10 ◌>>=◌ ◌>>◌
  unfoldable pub ◌>>=◌ : Part A → (A → Part B) → Part B
  ◌>>=◌ m f t = let (r, t') = m t in continue r f t'

  abbrev pub ◌>>◌ : Part A → Part B → Part B
  m >> n = m >>= λ _. n

-- What a failed step does to the process.
abbrev pub or_exit : Option String → Ended (Unit {0})
or_exit none = goes tt
or_exit (some e) = exits 1

abbrev pub or_panic : Option String → Ended (Unit {0})
or_panic none = goes tt
or_panic (some e) = panics e

module _ {Url : Type 0} (h : Host Url) where
  -- `if err != nil { setupLog.Error(...); os.Exit(1) }`, and ctrl.GetConfigOrDie
  unfoldable pub step_or_exit : Step → Part (Unit {0})
  step_or_exit x t = (or_exit (h.outcome t x), x ∷ t)

  -- utilruntime.Must and kubernetes.NewForConfigOrDie
  unfoldable pub step_or_panic : Step → Part (Unit {0})
  step_or_panic x t = (or_panic (h.outcome t x), x ∷ t)

  -- A step that cannot fail.
  unfoldable pub take : Step → Part (Unit {0})
  take x t = (goes tt, x ∷ t)
