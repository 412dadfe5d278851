-- ===== src/Startup/Main.antt =====
-- init and main of cmd/main.go, and SetupWebhookWithManager of api/v1/githubapp_webhook.go.
use github_app_operator.Base.{ℕ, String, [], ◌∷◌, str_eq, if◌then◌else◌}
use github_app_operator.World.{World, Reply, good, bad}
use github_app_operator.World.Action.{State, Result, ok, stop, failed, panicked, out_of_fuel}
use github_app_operator.Controller.Config.{Config}
use github_app_operator.Controller.Setup.{Process, setup_with_manager}
use github_app_operator.Startup.Options.{
  Flags, default_flags, debug_log, tls_opts, HttpClient, http_client, private_key_cache_path,
  leader_election_id, scheme_builder,
}
use github_app_operator.Startup.Steps.{
  ManagerOptions, add_client_go_scheme, add_to_scheme, set_logger, new_vault_client, get_config,
  new_clientset, new_manager, set_up_controller, set_up_webhook, add_healthz_check,
  add_readyz_check, start_manager, Steps, Host, Ended, goes, exits, panics, Part, pure, ◌>>=◌, ◌>>◌,
  step_or_exit, step_or_panic, take,
}

abbrev pub manager_options : Flags → ManagerOptions
manager_options flags = record {
  bind_address = flags.metrics_addr;
  secure_serving = flags.secure_metrics;
  metrics_tls_opts = tls_opts flags.enable_http2;
  webhook_tls_opts = tls_opts flags.enable_http2;
  health_probe_bind_address = flags.probe_addr;
  leader_election = flags.enable_leader_election;
  leader_election_id = leader_election_id;
}

-- The status of the exit, or the flags.
abbrev pub or_status : Reply ℕ Flags → Ended Flags
or_status (good flags) = goes flags
or_status (bad code) = exits code

-- `if err = (...).SetupWithManager(...); err != nil { os.Exit(1) }`
abbrev pub configured : Result Config → Ended Config
configured (ok c) = goes c
configured (stop (failed e)) = exits 1
configured (stop panicked) = panics "SetupWithManager"
configured (stop out_of_fuel) = panics "SetupWithManager"

-- What runs once the manager is started: the package variables, and the client for GitHub.
pub record Started (Url : Type 0) : Type 0 where
  pub config : Config
  pub client : HttpClient Url

module _ {Url : Type 0} (h : Host Url) where
  -- The two calls of init.
  unfoldable pub init : Part (Unit {0})
  init = step_or_panic h add_client_go_scheme >> step_or_panic h (add_to_scheme scheme_builder)

  unfoldable pub parse : Part Flags
  parse t = (or_status (h.parse_flags default_flags), t)

  -- What SetupWithManager finds; its registration with the manager is the step.
  abbrev pub process_at : Steps → String → Process
  process_at t cache = record {
    getenv = h.getenv;
    parse_duration = h.parse_duration;
    parse_unverified = h.parse_unverified;
    complete = h.outcome t (set_up_controller cache);
  }

  -- SetupWebhookWithManager, as main calls it.
  unfoldable pub setup_webhook_with_manager : Part (Unit {0})
  setup_webhook_with_manager = step_or_exit h set_up_webhook

  abbrev pub webhooks_enabled : String → Part (Unit {0})
  webhooks_enabled value = if str_eq value "true" then setup_webhook_with_manager else pure tt

  module _ (W : World) (s : State) where
    unfoldable pub set_up : String → Part Config
    set_up cache t = (
      configured (setup_with_manager W (process_at t cache) cache [] s).0,
      set_up_controller cache ∷ t,
    )

    unfoldable pub main : Part (Started Url)
    main = do
      init
      flags ← parse
      take h (set_logger (debug_log (h.parse_bool (h.getenv "DEBUG_LOG"))))
      let client = http_client h.parse_url (h.getenv "GITHUB_PROXY")
      step_or_exit h new_vault_client
      step_or_exit h get_config
      step_or_panic h new_clientset
      step_or_exit h get_config
      step_or_exit h (new_manager (manager_options flags))
      c ← set_up (private_key_cache_path (h.getenv "PRIVATE_KEY_CACHE_PATH"))
      webhooks_enabled (h.getenv "ENABLE_WEBHOOKS")
      step_or_exit h add_healthz_check
      step_or_exit h add_readyz_check
      step_or_exit h start_manager
      pure (record { config = c; client = client })
