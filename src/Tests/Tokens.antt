-- ===== src/Tests/Tokens.antt =====
-- The theorems on the access token at concrete data.
use github_app_operator.Base.{◌≤◌, ◌<◌, Bool, ◌≡◌, refl, [], arith}
use github_app_operator.Base.Int.{pos, neg_part}
use github_app_operator.World.{post_access_tokens, Response}
use github_app_operator.World.Action.{
  State, Result, ok, pure, halt, lift, current_app, set_app, on_error, wrap_error, ◌>>=◌,
}
use github_app_operator.World.Calls.{perform, update_status}
use github_app_operator.World.Since.{Since}
use github_app_operator.Controller.Cache.{get_private_key_from_cache}
use github_app_operator.Controller.PrivateKey.{
  get_private_key, choose_source, from_secret, get_private_key_from_secret, cache_key,
}
use github_app_operator.Controller.Retry.{with_retries, wait_time}
use github_app_operator.Controller.Retry.Laws.{Outcome, requests, with_retries-Outcome}
use github_app_operator.Controller.Retry.Wait.{exact_wait, wait_time-exact, wait_time-wraps}
use github_app_operator.Controller.Token.{token_verdict, token_exhausted, generate_access_token}
use github_app_operator.Controller.Token.Laws.{
  Granted, generate_access_token-Granted, requests-generate_access_token,
}
use github_app_operator.Controller.Validity.{is_access_token_valid}
use github_app_operator.Controller.Validity.Laws.{
  Accepted, is_access_token_valid-Accepted, is_access_token_valid_total,
}
use github_app_operator.Controller.Status.{
  set_expiry, attempt_update, update_github_app_status_with_retry,
}
use github_app_operator.Controller.Rollout.{rollout_deployment, upgrade_for_labels}
use github_app_operator.Controller.AccessToken.{
  announce, create_access_token_secret, store_token, request_access_token,
  create_or_update_access_token,
}
use github_app_operator.Controller.AccessToken.Safety.{
  TokenCall, create_or_update_access_token-TokenCall,
}
use github_app_operator.Controller.AccessToken.Laws.{Renewed, create_or_update_access_token-Renewed}
use github_app_operator.Tests.Setting.{app, config, start, calm, busy}

abbrev post : Result Response × State
post =
    with_retries busy (post_access_tokens "2" "jwt") (token_verdict busy) (token_exhausted busy) 5 0
      start

with_retries-Outcome_example :
    Outcome busy
      (post_access_tokens "2" "jwt")
      (token_verdict busy)
      (token_exhausted busy)
      5
      0
      start
      post
with_retries-Outcome_example =
    with_retries-Outcome busy (post_access_tokens "2" "jwt") (token_verdict busy)
      (token_exhausted busy) 5 0 start

wait_time-exact_example : wait_time (pos 60) 4 499 ≡ pos (exact_wait 60 4 499)
wait_time-exact_example = wait_time-exact 60 4 499 (omega arith) (omega arith) (omega arith)

wait_time-wraps_example : 0 < neg_part (wait_time (pos 600000000) 4 3)
wait_time-wraps_example = wait_time-wraps 600000000 3 (omega arith) (omega arith) (omega arith)

abbrev granted : State
granted = (generate_access_token calm (pos 1) (pos 2) "PEM" start).1

abbrev token : Response
token = record { token = "ghs"; expires_at = 5000 }

generate_access_token-Granted_example : Granted calm (pos 1) (pos 2) "PEM" start token granted
unfolding generate_access_token with_retries ◌>>=◌ pure lift perform
generate_access_token-Granted_example =
    generate_access_token-Granted calm (pos 1) (pos 2) "PEM" start refl

requests-generate_access_token_example :
    requests (generate_access_token busy (pos 1) (pos 2) "PEM" start).1.trace ≤ 5
requests-generate_access_token_example =
    requests-generate_access_token busy (pos 1) (pos 2) "PEM" start

abbrev accepted : State
accepted = (is_access_token_valid calm "not-used" "ghs" start).1

is_access_token_valid-Accepted_example : Accepted calm "not-used" "ghs" start accepted
unfolding is_access_token_valid with_retries ◌>>=◌ pure lift perform
is_access_token_valid-Accepted_example =
    is_access_token_valid-Accepted calm "not-used" "ghs" start refl

is_access_token_valid_total_example :
    (b : Bool) × (s : State) × (is_access_token_valid busy "not-used" "ghs" start ≡ (ok b, s))
    × (requests s.trace ≤ 5)
is_access_token_valid_total_example = is_access_token_valid_total busy "not-used" "ghs" start

create_or_update_access_token-TokenCall_example :
    Since (TokenCall calm config app) [] (create_or_update_access_token calm config start).1.trace
create_or_update_access_token-TokenCall_example =
    create_or_update_access_token-TokenCall calm config start

renewed :
    create_or_update_access_token calm config start
    ≡ (ok tt, (create_or_update_access_token calm config start).1)
unfolding create_or_update_access_token request_access_token store_token create_access_token_secret
    announce rollout_deployment upgrade_for_labels update_github_app_status_with_retry
    attempt_update set_expiry update_status generate_access_token with_retries get_private_key
    get_private_key_from_cache choose_source from_secret get_private_key_from_secret cache_key ◌>>=◌
    pure lift halt current_app set_app perform wrap_error on_error
renewed = refl

create_or_update_access_token-Renewed_example : Renewed calm config start
create_or_update_access_token-Renewed_example =
    create_or_update_access_token-Renewed calm config start renewed
