-- ===== src/Controller/Token.antt =====
-- generateAccessToken of internal/controller/githubapp_controller.go.
pub mod Laws
use github_app_operator.Base.{◌+◌, ◌*◌, String, ◌<>◌, ◌==◌, if◌then◌else◌}
use github_app_operator.Base.Int.{ℤ, pos}
use github_app_operator.Api.Types.{Time, Bytes}
use github_app_operator.World.{
  World, Reply, good, bad, HttpResponse, post_access_tokens, RegisteredClaims, Response,
}
use github_app_operator.World.Action.{
  Action, Result, stop, failed, lift, no_error, need, ◌>>=◌, ◌>>◌,
}
use github_app_operator.World.Calls.{read_clock}
use github_app_operator.Controller.Config.{second}
use github_app_operator.Controller.Retry.{
  max_retries, is_rate_limited, Verdict, final, again, with_retries,
}

module _ (W : World) where
  -- One answer to the POST.
  abbrev pub token_verdict : Reply String HttpResponse → Verdict Response
  token_verdict (bad e) =
      final (stop (failed ("failed to send HTTP post request to GitHub API: " <> e)))
  token_verdict (good resp) =
      if resp.status_code == 201
      then final (need (λ e. "failed to parse response body: " <> e) (W.decode_response resp.body))
      else if is_rate_limited resp.status_code
      then again resp.retry_after
      else final (stop (failed ("unexpected status code: " <> W.itoa (pos resp.status_code))))

  abbrev pub token_exhausted : Result Response
  token_exhausted =
      stop (failed ("failed to get access token after " <> W.itoa (pos max_retries) <> " retries"))

  abbrev ten_minutes_after : Time → Time
  ten_minutes_after now = now + 10 * 60 * second

  abbrev pub claims_at : ℤ → Time → RegisteredClaims
  claims_at app_id now = record {
    issuer = W.itoa app_id;
    issued_at = now;
    expires_at = ten_minutes_after now;
  }

  unfoldable pub generate_access_token : ℤ → ℤ → Bytes → Action Response
  generate_access_token app_id installation_id private_key = do
    lift (no_error (λ e. "failed to parse private key: " <> e) (W.parse_rsa_key private_key))
    now ← read_clock W
    signed_token ←
        lift
          (need (λ e. "failed to sign JWT: " <> e) (W.sign_jwt private_key (claims_at app_id now)))
    with_retries W (post_access_tokens (W.itoa installation_id) signed_token) token_verdict
        token_exhausted max_retries 0
