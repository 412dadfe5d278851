-- ===== src/Controller/Validity.antt =====
-- isAccessTokenValid of internal/controller/githubapp_controller.go.
pub mod Laws
use github_app_operator.Base.{String, Bool, false, not, ◌==◌, str_eq, if◌then◌else◌}
use github_app_operator.Base.Int.{pos, leb_ℤ}
use github_app_operator.World.{World, Reply, good, bad, HttpResponse, get_rate_limit, RateLimitInfo}
use github_app_operator.World.Action.{Action, ok, pure}
use github_app_operator.Controller.Config.{git_username}
use github_app_operator.Controller.Retry.{
  max_retries, is_rate_limited, Verdict, final, again, with_retries,
}

-- `remaining <= 0` refuses the token, and so does a body that does not decode.
abbrev pub has_requests_left : Reply String RateLimitInfo → Bool
has_requests_left (bad e) = false
has_requests_left (good info) = not (leb_ℤ info.remaining (pos 0))

module _ (W : World) where
  -- One answer to the GET.
  abbrev pub validity_verdict : Reply String HttpResponse → Verdict Bool
  validity_verdict (bad e) = final (ok false)
  validity_verdict (good resp) =
      if resp.status_code == 200
      then final (ok (has_requests_left (W.decode_rate_limit resp.body)))
      else if is_rate_limited resp.status_code
      then again resp.retry_after
      else final (ok false)

  -- http.NewRequest cannot fail on the constant method and URL.
  unfoldable pub is_access_token_valid : String → String → Action Bool
  is_access_token_valid username access_token =
      if not (str_eq username git_username)
      then pure false
      else with_retries W (get_rate_limit access_token) validity_verdict (ok false) max_retries 0
