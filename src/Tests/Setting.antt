-- ===== src/Tests/Setting.antt =====
-- A concrete GithubApp, and worlds that answer for it.
use github_app_operator.Base.{◌*◌, String, ◌<>◌, none, some, List, [], ◌∷◌, str_eq, if◌then◌else◌}
use github_app_operator.Base.Int.{pos}
use github_app_operator.Api.Types.{GithubApp, Secret, ObjectKey, no_meta, blank_app}
use github_app_operator.World.{
  World, not_found, conflict, not_exist, good, bad, HttpRequest, HttpResponse, post_access_tokens,
  get_rate_limit, text,
}
use github_app_operator.World.Action.{State}
use github_app_operator.Controller.Config.{Config, second}

abbrev pub app : GithubApp
app = record {
  meta = record no_meta { name = "app"; namespace = "team"; resource_version = "7" };
  spec = record blank_app.spec {
    app_id = pos 1;
    install_id = pos 2;
    private_key_secret = "key";
    access_token_secret = "token";
  };
  status = record { expires_at = 0; error = "" };
}

abbrev pub request : ObjectKey
request = record { namespace = "team"; name = "app" }

abbrev pub config : Config
config = record {
  reconcile_interval = pos (300 * second);
  time_before_expiry = pos (900 * second);
  vault_audience = "vault";
  vault_role = "operator";
  service_account_name = "manager";
  kubernetes_namespace = "system";
  private_key_cache_path = "/tmp";
}

abbrev pub start : State
start = record { app = app; trace = [] }

abbrev pub secret_of : String → Secret
secret_of owner = record {
  meta = record no_meta {
    name = owner;
    owner_references = record { kind = "GithubApp"; name = owner } ∷ [];
  };
  contents = ("privateKey", "PEM") ∷ [];
  string_data = [];
}

abbrev pub answer_to : HttpRequest → HttpResponse
answer_to (post_access_tokens i jwt) = record { status_code = 201; retry_after = ""; body = "{}" }
answer_to (get_rate_limit token) = record { status_code = 200; retry_after = ""; body = "{}" }

abbrev join : List String → String
join [] = ""
join (x ∷ xs) = x <> "/" <> join xs

-- All goes well: the private key is in a Kubernetes secret, nothing is cached, and no access token
-- is stored.
abbrev pub calm : World
calm = record {
  get_app = λ t k. (none, app);
  get_secret = λ t k.
      if str_eq k.name "key" then good (secret_of "app") else bad (not_found "no such secret");
  list_secrets = λ t n. good (secret_of "other" ∷ secret_of "app" ∷ []);
  delete_secret = λ t x. none;
  create_secret = λ t x. none;
  update_secret = λ t x. none;
  update_status = λ t a. good a;
  list_deployments = λ t n k v. good [];
  update_deployment = λ t d. none;
  set_controller_reference = λ a x. good x;
  create_token = λ t r. good "service account token";
  stat = λ t p. some (not_exist "no such file");
  mkdir_all = λ t p. none;
  read_file = λ t p. good "PEM";
  write_file = λ t p b. none;
  remove_file = λ t p. none;
  join = join;
  now = λ t. 1000;
  format_time = λ t. "now";
  intn = λ t n. 0;
  atoi = λ x. none;
  itoa = λ z. "2";
  http_do = λ t r. good (answer_to r);
  decode_response = λ b. good (record { token = "ghs"; expires_at = 5000 });
  decode_rate_limit = λ b. good (record { remaining = pos 10 });
  sign_jwt = λ key claims. good "jwt";
  parse_rsa_key = λ key. none;
  vault_address = "https://vault";
  new_kubernetes_auth = λ role token. none;
  vault_login = λ t role token. good (some "auth");
  vault_get = λ t mount path. good (("key", text "UEVN") ∷ []);
  gcp_new_client = λ t. none;
  gcp_access = λ t name. good (record { bytes = "UEVN"; data_crc32c = some (pos 5) });
  checksum = λ b. pos 5;
  base64_decode = λ x. good "PEM";
}

-- GitHub limits every request.
abbrev pub busy : World
busy = record calm {
  http_do = λ t r. good (record { status_code = 429; retry_after = ""; body = "" });
}

-- GitHub cannot be reached.
abbrev pub offline : World
offline = record calm { http_do = λ t r. bad "connection refused" }

-- The API server has a newer version of the GithubApp than the one at hand.
abbrev pub stale : World
stale = record calm {
  update_status =
      λ t a. if str_eq a.meta.resource_version "8" then good a else bad (conflict "modified");
}

-- The GithubApp is gone.
abbrev pub gone : World
gone = record calm { get_app = λ t k. (some (not_found "gone"), blank_app) }

abbrev pub app_being_deleted : GithubApp
app_being_deleted = record app { meta = record app.meta { deletion_timestamp = some 900 } }

-- The GithubApp is being deleted.
abbrev pub leaving : World
leaving = record calm { get_app = λ t k. (none, app_being_deleted) }
