-- ===== src/Startup/Options.antt =====
-- What main of cmd/main.go computes from flags and environment variables, and the scheme that
-- api/v1/groupversion_info.go and api/v1/githubapp_types.go build.
use github_app_operator.Base.{
  String, Bool, false, not, Option, none, some, List, [], ◌∷◌, ◌++◌, str_eq, if◌then◌else◌,
}
use github_app_operator.World.{Reply, good, bad}

pub record Flags : Type 0 where
  pub metrics_addr : String
  pub probe_addr : String
  pub enable_leader_election : Bool
  pub secure_metrics : Bool
  pub enable_http2 : Bool

-- The defaults that main registers with package flag.
abbrev pub default_flags : Flags
default_flags = record {
  metrics_addr = ":8080";
  probe_addr = ":8081";
  enable_leader_election = false;
  secure_metrics = false;
  enable_http2 = false;
}

-- `debugLog, err := strconv.ParseBool(...)`, with false for an error
abbrev pub debug_log : Reply String Bool → Bool
debug_log (good b) = b
debug_log (bad e) = false

-- The field of a tls.Config that main sets.
pub record TlsConfig : Type 0 where
  pub next_protos : List String

abbrev pub disable_http2 : TlsConfig → TlsConfig
disable_http2 c = record c { next_protos = "http/1.1" ∷ [] }

unfoldable pub tls_opts : Bool → List (TlsConfig → TlsConfig)
tls_opts enable_http2 = if not enable_http2 then [] ++ (disable_http2 ∷ []) else []

-- An http.Client: with the default transport, or with a transport whose proxy is a fixed URL. The
-- URL is a pointer; it is nil if url.Parse fails, since main drops the error.
pub data HttpClient (Url : Type 0) : Type 0 where
  default_client : HttpClient Url
  proxied_client : Option Url → HttpClient Url

module _ {Url : Type 0} where
  abbrev pub parsed_url : Reply String Url → Option Url
  parsed_url (good u) = some u
  parsed_url (bad e) = none

  unfoldable pub http_client : (String → Reply String Url) → String → HttpClient Url
  http_client parse_url git_proxy =
      if not (str_eq git_proxy "")
      then proxied_client (parsed_url (parse_url git_proxy))
      else default_client

unfoldable pub private_key_cache_path : String → String
private_key_cache_path custom_cache_path =
    if not (str_eq custom_cache_path "") then custom_cache_path else "/var/run/github-app-secrets/"

abbrev pub leader_election_id : String
leader_election_id = "bef5b64b.samir.io"

-- schema.GroupVersion
pub record GroupVersion : Type 0 where
  pub group : String
  pub version : String

abbrev pub group_version : GroupVersion
group_version = record { group = "githubapp.samir.io"; version = "v1" }

-- A scheme.Builder, by the version and the kinds that it has been given.
pub record SchemeBuilder : Type 0 where
  pub version : GroupVersion
  pub kinds : List String

abbrev pub register : List String → SchemeBuilder → SchemeBuilder
register kinds b = record b { kinds = b.kinds ++ kinds }

-- The init function of api/v1/githubapp_types.go, on the builder of groupversion_info.go.
abbrev pub scheme_builder : SchemeBuilder
scheme_builder =
    register ("GithubApp" ∷ "GithubAppList" ∷ []) (record { version = group_version; kinds = [] })
