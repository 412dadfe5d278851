-- ===== src/Startup/Laws.antt =====
-- main of cmd/main.go: the order of its steps, and how it ends.
use github_app_operator.Base.{String, ◌≡◌, refl, List, [], ◌∷◌, str_eq, if◌then◌else◌}
use github_app_operator.World.{World, good}
use github_app_operator.World.Action.{State}
use github_app_operator.Controller.Setup.Total.{Configured}
use github_app_operator.Startup.Options.{
  Flags, default_flags, debug_log, http_client, private_key_cache_path, scheme_builder,
}
use github_app_operator.Startup.Steps.{
  Step, add_client_go_scheme, add_to_scheme, set_logger, new_vault_client, get_config,
  new_clientset, new_manager, set_up_controller, set_up_webhook, add_healthz_check,
  add_readyz_check, start_manager, Steps, Host, pure, ◌>>◌, step_or_exit,
}
use github_app_operator.Startup.Main.{manager_options, Started, process_at, main}
use github_app_operator.Startup.Takes.{
  Ending, Takes, Takes-pure, Takes-take, Takes-exit, Takes-panic, Takes-set_up, Takes-init,
  Takes-parse, Takes-webhooks,
}

module _ {Url : Type 0} (h : Host Url) (W : World) (s : State) where
  abbrev pub cache : String
  cache = private_key_cache_path (h.getenv "PRIVATE_KEY_CACHE_PATH")

  -- The steps of main, with the flags that were parsed.
  abbrev pub plan : Flags → List Step
  plan flags =
      add_client_go_scheme
      ∷ add_to_scheme scheme_builder
      ∷ set_logger (debug_log (h.parse_bool (h.getenv "DEBUG_LOG")))
      ∷ new_vault_client
      ∷ get_config
      ∷ new_clientset
      ∷ get_config
      ∷ new_manager (manager_options flags)
      ∷ set_up_controller cache
      ∷ (if str_eq (h.getenv "ENABLE_WEBHOOKS") "true"
          then set_up_webhook ∷ add_healthz_check ∷ add_readyz_check ∷ start_manager ∷ []
          else add_healthz_check ∷ add_readyz_check ∷ start_manager ∷ [])

  -- What runs in the end: the configuration of the set-up, and the client of the environment.
  pub record Runs (r : Started Url) : Type 0 where
    pub before : Steps
    pub settings : Configured W (process_at h before cache) cache [] s r.config
    pub client : r.client ≡ http_client h.parse_url (h.getenv "GITHUB_PROXY")

  checks-Takes :
      (r : Started Url)
      → Runs r
      → Takes h Runs (add_healthz_check ∷ add_readyz_check ∷ start_manager ∷ []) (
          step_or_exit h add_healthz_check
          >> (step_or_exit h add_readyz_check >> (step_or_exit h start_manager >> pure r)))
  checks-Takes r p =
      let started =
        Takes-exit h {P = Runs} start_manager [] (pure r) (λ t. refl) (Takes-pure h r p)
          (λ e. refl) in
      let ready = Takes-exit h {P = Runs} add_readyz_check _ _ (λ t. refl) started (λ e. refl) in
      Takes-exit h {P = Runs} add_healthz_check _ _ (λ t. refl) ready (λ e. refl)

  -- If the flags parse, main takes the steps of the plan in their order, and stops at the first
  -- that fails: with a panic if it was the scheme or the clientset, or else with the status 1. If
  -- all succeed, the manager has been started with the configuration of the set-up and the client
  -- for GitHub.
  pub main-Ending :
      (flags : Flags)
      → h.parse_flags default_flags ≡ good flags
      → Ending h Runs (plan flags) [] (main h W s [])
  unfolding main
  main-Ending flags f =
      (Takes-init h {P = Runs} _ _ (
          Takes-parse h flags _ _ f (
            Takes-take h _ _ _ (
              Takes-exit h new_vault_client _ _ (λ t. refl)
                (Takes-exit h get_config _ _ (λ t. refl)
                  (Takes-panic h new_clientset _ _ (λ t. refl)
                    (Takes-exit h get_config _ _ (λ t. refl)
                      (Takes-exit h (new_manager (manager_options flags)) _ _ (λ t. refl)
                        (Takes-set_up h W s cache _ _ λ t c conf.
                          Takes-webhooks h (str_eq (h.getenv "ENABLE_WEBHOOKS") "true") _ _ (
                            checks-Takes _ (record { before = t; settings = conf; client = refl })))
                        (λ e. refl))
                      (λ e. refl))
                    (λ e. refl))
                  (λ e. refl))
                (λ e. refl))))).at
        []
