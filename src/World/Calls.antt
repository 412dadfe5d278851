-- ===== src/World/Calls.antt =====
-- The calls that leave the program, one action each. Each is noted in the trace.
use github_app_operator.Base.{ℕ, String, Option, none, some, List, ◌∷◌, Map}
use github_app_operator.Api.Types.{Time, Duration, Bytes, GithubApp, Secret, Deployment, ObjectKey}
use github_app_operator.World.{
  World, Call, Trace, Reply, good, bad, ApiError, FileError, HttpRequest, HttpResponse,
  TokenRequest, VaultValue, Payload, Event,
}
use github_app_operator.World.Action.{Action, State, ok}

-- A call c whose answer is read off the trace before it.
unfoldable pub perform : {A : Type 0} → Call → (Trace → A) → Action A
perform c answer s = (ok (answer s.trace), record s { trace = c ∷ s.trace })

-- r.Recorder.Event: nothing comes back.
abbrev pub record_event : Event → Action (Unit {0})
record_event e = perform (Call.record_event e) (λ t. tt)

-- time.Sleep
abbrev pub sleep : Duration → Action (Unit {0})
sleep d = perform (Call.sleep d) (λ t. tt)

module _ (W : World) where
  -- r.Get of a GithubApp
  abbrev pub get_app : ObjectKey → Action (Option ApiError × GithubApp)
  get_app k = perform (Call.get_app k) (λ t. W.get_app t k)

  -- r.Get of a Secret
  abbrev pub get_secret : ObjectKey → Action (Reply ApiError Secret)
  get_secret k = perform (Call.get_secret k) (λ t. W.get_secret t k)

  -- r.List of the secrets of a namespace
  abbrev pub list_secrets : String → Action (Reply ApiError (List Secret))
  list_secrets n = perform (Call.list_secrets n) (λ t. W.list_secrets t n)

  abbrev pub delete_secret : Secret → Action (Option ApiError)
  delete_secret x = perform (Call.delete_secret x) (λ t. W.delete_secret t x)

  abbrev pub create_secret : Secret → Action (Option ApiError)
  create_secret x = perform (Call.create_secret x) (λ t. W.create_secret t x)

  abbrev pub update_secret : Secret → Action (Option ApiError)
  update_secret x = perform (Call.update_secret x) (λ t. W.update_secret t x)

  -- r.List of the deployments of a namespace that carry a label
  abbrev pub list_deployments : String → String → String → Action (Reply ApiError (List Deployment))
  list_deployments n k v = perform (Call.list_deployments n k v) (λ t. W.list_deployments t n k v)

  abbrev pub update_deployment : Deployment → Action (Option ApiError)
  update_deployment d = perform (Call.update_deployment d) (λ t. W.update_deployment t d)

  abbrev answer_status : Reply ApiError GithubApp → State → Option ApiError × State
  answer_status (good a) s = (none, record s { app = a })
  answer_status (bad e) s = (some e, s)

  -- r.Status().Update(ctx, githubApp): the server's object replaces *githubApp.
  unfoldable pub update_status : Action (Option ApiError)
  update_status s =
      let (e, s') = answer_status (W.update_status s.trace s.app) s in
      (ok e, record s' { trace = Call.update_status s.app ∷ s.trace })

  abbrev pub create_token : TokenRequest → Action (Reply String String)
  create_token r = perform (Call.create_token r) (λ t. W.create_token t r)

  abbrev pub stat : String → Action (Option FileError)
  stat p = perform (Call.stat p) (λ t. W.stat t p)

  abbrev pub mkdir_all : String → Action (Option FileError)
  mkdir_all p = perform (Call.mkdir_all p) (λ t. W.mkdir_all t p)

  abbrev pub read_file : String → Action (Reply FileError Bytes)
  read_file p = perform (Call.read_file p) (λ t. W.read_file t p)

  abbrev pub write_file : String → Bytes → Action (Option FileError)
  write_file p b = perform (Call.write_file p b) (λ t. W.write_file t p b)

  abbrev pub remove_file : String → Action (Option FileError)
  remove_file p = perform (Call.remove_file p) (λ t. W.remove_file t p)

  -- time.Now()
  abbrev pub read_clock : Action Time
  read_clock = perform Call.read_clock (λ t. W.now t)

  -- rand.Intn(n)
  abbrev pub rand_intn : ℕ → Action ℕ
  rand_intn n = perform (Call.rand_intn n) (λ t. W.intn t n)

  -- r.HTTPClient.Do(req)
  abbrev pub http_do : HttpRequest → Action (Reply String HttpResponse)
  http_do r = perform (Call.http_do r) (λ t. W.http_do t r)

  -- r.VaultClient.Auth().Login with the Kubernetes auth of a role and a token
  abbrev pub vault_login : String → String → Action (Reply String (Option String))
  vault_login role token = perform (Call.vault_login role token) (λ t. W.vault_login t role token)

  -- r.VaultClient.KVv2(mount).Get(path)
  abbrev pub vault_get : String → String → Action (Reply String (Map VaultValue))
  vault_get mount path = perform (Call.vault_get mount path) (λ t. W.vault_get t mount path)

  abbrev pub gcp_new_client : Action (Option String)
  gcp_new_client = perform Call.gcp_new_client (λ t. W.gcp_new_client t)

  abbrev pub gcp_access : String → Action (Reply String Payload)
  gcp_access name = perform (Call.gcp_access name) (λ t. W.gcp_access t name)

-- The deferred client.Close(): its error is only printed.
abbrev pub gcp_close : Action (Unit {0})
gcp_close = perform Call.gcp_close (λ t. tt)
