-- ===== src/Tests/Start.antt =====
-- The theorems on the start-up at a concrete host.
use github_app_operator.Base.{String, refl, Option, none, some, [], str_eq, if◌then◌else◌}
use github_app_operator.Base.Int.{pos}
use github_app_operator.World.{Reply, good, bad}
use github_app_operator.Startup.Options.{
  HttpClient, default_client, proxied_client, default_flags, http_client,
}
use github_app_operator.Startup.Steps.{Host, Step, add_readyz_check}
use github_app_operator.Startup.Main.{main}
use github_app_operator.Startup.Takes.{Ending}
use github_app_operator.Startup.Laws.{plan, Runs, main-Ending}
use github_app_operator.Startup.Client.{ProxyChoice, Transports, http_client-ProxyChoice}
use github_app_operator.Tests.Setting.{start, calm}

-- A URL is a text other than ":".
abbrev parse_url : String → Reply String String
parse_url u = if str_eq u ":" then bad "missing protocol scheme" else good u

-- The second check cannot be registered.
abbrev refusal : Step → Option String
refusal add_readyz_check = some "duplicate check"
refusal _ = none

abbrev host : Host String
host = record {
  getenv = λ name. if str_eq name "ENABLE_WEBHOOKS" then "true" else "";
  parse_bool = λ x. bad "invalid syntax";
  parse_url = parse_url;
  parse_flags = good;
  parse_duration = λ x. good (pos 0);
  parse_unverified = λ x. good none;
  outcome = λ t x. refusal x;
}

main-Ending_example :
    Ending host
      (Runs host calm start)
      (plan host calm start default_flags)
      []
      (main host calm start [])
main-Ending_example = main-Ending host calm start default_flags refl

abbrev proxy_of : HttpClient String → Option String
proxy_of default_client = some "http://proxy:3128"
proxy_of (proxied_client u) = u

documented : Transports (some "http://proxy:3128") proxy_of
documented = record { by_default = refl; by_url = λ u. refl }

http_client-ProxyChoice_example :
    ProxyChoice parse_url ":" (some "http://proxy:3128") (proxy_of (http_client parse_url ":"))
http_client-ProxyChoice_example =
    http_client-ProxyChoice parse_url ":" (some "http://proxy:3128") proxy_of documented
