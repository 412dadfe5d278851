-- ===== src/Startup/Client.antt =====
-- The HTTP client for GitHub that main of cmd/main.go builds from GITHUB_PROXY.
use github_app_operator.Base.{
  String, Bool-cases, ◌≡◌, ◌≢◌, inl, inr, Option, none, some, arith, eq_iff, str_eq,
}
use github_app_operator.World.{Reply, good, bad}
use github_app_operator.World.Invert.{Reply-cases}
use github_app_operator.Startup.Options.{HttpClient, default_client, proxied_client, http_client}

-- Through which proxy, if any, the clients of net/http send a request: one with the default
-- transport through that of the environment, and one whose transport has http.ProxyURL through the
-- URL of it, or none if that is nil.
pub record Transports {Url : Type 0} (from_environment : Option Url)
    (proxy_of : HttpClient Url → Option Url) : Type 0 where
  pub by_default : proxy_of default_client ≡ from_environment
  pub by_url : (u : Option Url) → proxy_of (proxied_client u) ≡ u

module _ {Url : Type 0} (parse_url : String → Reply String Url) (git_proxy : String)
    (from_environment : Option Url) where
  -- How the proxy of the requests comes about.
  pub data ProxyChoice (proxy : Option Url) : Type 0 where
    from_default : git_proxy ≡ "" → proxy ≡ from_environment → ProxyChoice proxy
    from_variable :
        (u : Url)
        → git_proxy ≢ ""
        → parse_url git_proxy ≡ good u
        → proxy ≡ some u
        → ProxyChoice proxy
    no_proxy :
        (e : String)
        → git_proxy ≢ ""
        → parse_url git_proxy ≡ bad e
        → proxy ≡ none
        → ProxyChoice proxy

  -- Without GITHUB_PROXY, requests go through the proxy of the environment, if there is one. With a
  -- GITHUB_PROXY that is a URL they go through that one, and with one that is not they go through
  -- no proxy at all, not that of the environment either. The clients of net/http are taken to use
  -- proxies as documented.
  pub http_client-ProxyChoice :
      (proxy_of : HttpClient Url → Option Url)
      → Transports from_environment proxy_of
      → ProxyChoice (proxy_of (http_client parse_url git_proxy))
  unfolding http_client
  http_client-ProxyChoice proxy_of transports = elim (Bool-cases (str_eq git_proxy "")) [
    | inl k ↦ from_default (ground (arith, eq_iff git_proxy "")) (rw k transports.by_default)
    | inr k ↦ elim (Reply-cases (parse_url git_proxy)) [
      | inl (u, r) ↦
          from_variable u (ground (arith, eq_iff git_proxy "")) r
            (rw (k, r) (transports.by_url (some u)))
      | inr (e, r) ↦
          no_proxy e (ground (arith, eq_iff git_proxy "")) r (rw (k, r) (transports.by_url none))
    ]
  ]
