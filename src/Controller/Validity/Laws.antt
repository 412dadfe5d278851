-- ===== src/Controller/Validity/Laws.antt =====
-- When isAccessTokenValid accepts a token.
use github_app_operator.Base.{
  ◌+◌, ◌≤◌, ◌<◌, ◌≡◌, refl, ap, ◌∙◌, inl, inr, String, Bool, true, false, arith, str_eq, eq_iff,
  Bool-cases,
}
use github_app_operator.Base.Int.{pos, leb_ℤ}
use github_app_operator.World.{World, Reply, good, bad, HttpResponse, get_rate_limit, RateLimitInfo}
use github_app_operator.World.Action.{State, Result, ok, pure}
use github_app_operator.Controller.Config.{git_username}
use github_app_operator.Controller.Retry.{final, max_retries, with_retries}
use github_app_operator.Controller.Retry.Laws.{
  requests, asked, Outcome, decided, gave_up, requests-Limited, Limited-app, with_retries-Outcome,
}
use github_app_operator.Controller.Validity.{
  has_requests_left, validity_verdict, is_access_token_valid,
}

module _ (W : World) where
  has_requests_left-true :
      (r : Reply String RateLimitInfo)
      → has_requests_left r ≡ true
      → (info : RateLimitInfo) × (r ≡ good info) × (leb_ℤ info.remaining (pos 0) ≡ false)
  has_requests_left-true (good info) h = (info, refl, ground arith)
  has_requests_left-true (bad e) h = cc

  validity_verdict-true :
      (reply : Reply String HttpResponse)
      → validity_verdict W reply ≡ final (ok true)
      → (resp : HttpResponse) × (reply ≡ good resp)
        × (resp.status_code ≡ 200)
        × (has_requests_left (W.decode_rate_limit resp.body) ≡ true)
  validity_verdict-true (bad e) h = ground arith
  validity_verdict-true (good resp) h = (resp, refl, ground arith, ground arith)

  validity_verdict-final :
      (reply : Reply String HttpResponse) {r : Result Bool}
      → validity_verdict W reply ≡ final r
      → (b : Bool) × (r ≡ ok b)
  validity_verdict-final (bad e) h = ground arith
  validity_verdict-final (good resp) h = ground arith

  -- The evidence for an accepted token: the state in which the last request was made, and
  -- GitHub's answer to it.
  pub record Accepted (username token : String) (s s' : State) : Type 0 where
    pub name : username ≡ git_username
    pub before : State
    pub answer : HttpResponse
    pub info : RateLimitInfo
    pub answered : W.http_do before.trace (get_rate_limit token) ≡ good answer
    pub status : answer.status_code ≡ 200
    pub decoded : W.decode_rate_limit answer.body ≡ good info
    pub remaining : leb_ℤ info.remaining (pos 0) ≡ false
    pub ends : s' ≡ asked (get_rate_limit token) before
    pub kept : s'.app ≡ s.app
    pub few : requests before.trace < requests s.trace + max_retries

  module _ (username token : String) (s : State) where
    abbrev check : State → Result Bool × State
    check = with_retries W (get_rate_limit token) (validity_verdict W) (ok false) max_retries 0

    from_answer :
        {s' : State}
        → username ≡ git_username
        → check s ≡ (ok true, s')
        → Outcome W (get_rate_limit token) (validity_verdict W) (ok false) max_retries 0 s (check s)
        → Accepted username token s s'
    from_answer n h (gave_up u l o) = cc
    from_answer {s'} n h (decided k u r lt l d o) =
        let reply = W.http_do u.trace (get_rate_limit token) in
        let e : validity_verdict W reply ≡ final (ok true) = cc in
        let (resp, a, b, c) = validity_verdict-true reply e in
        let (info, p, q) = has_requests_left-true _ c in
        record {
          name = n;
          before = u;
          answer = resp;
          info = info;
          answered = a;
          status = b;
          decoded = p;
          remaining = q;
          ends = cc;
          kept =
              let last : s' ≡ asked (get_rate_limit token) u = cc in
              ap (λ (x : State). x.app) last ∙ Limited-app W _ _ l;
          few = omega (arith, requests-Limited W _ _ l);
        }

    -- A token is accepted only with the fixed username and on a last answer of GitHub with status
    -- 200 whose body says that requests remain; at most five requests were made, and the GithubApp is as it was.
    pub is_access_token_valid-Accepted :
        {s' : State}
        → is_access_token_valid W username token s ≡ (ok true, s')
        → Accepted username token s s'
    unfolding is_access_token_valid pure
    is_access_token_valid-Accepted h = elim (Bool-cases (str_eq username git_username)) [
      | inr other ↦ cc (rw (other, is_access_token_valid) at h)
      | inl same ↦
          from_answer ((eq_iff _ _).0 same) (rw (same, is_access_token_valid) at h)
            (with_retries-Outcome W _ _ _ max_retries 0 s)
    ]

    abbrev Answers : Result Bool × State → Type 0
    Answers out =
        (b : Bool) × (s' : State) × (out ≡ (ok b, s')) × (requests s'.trace ≤ requests s.trace + 5)

    Outcome-Answers :
        {out : Result Bool × State}
        → Outcome W (get_rate_limit token) (validity_verdict W) (ok false) max_retries 0 s out
        → Answers out
    Outcome-Answers (gave_up u l o) = (false, u, o, omega (arith, requests-Limited W _ _ l))
    Outcome-Answers (decided k u r lt l d o) =
        let reply = W.http_do u.trace (get_rate_limit token) in
        let (b, e) = validity_verdict-final reply d in
        (b, asked (get_rate_limit token) u, cc, omega (arith, requests-Limited W _ _ l))

    -- The check answers true or false on every path, and never makes more than five requests.
    pub is_access_token_valid_total :
        (b : Bool) × (s' : State) × (is_access_token_valid W username token s ≡ (ok b, s'))
        × (requests s'.trace ≤ requests s.trace + 5)
    unfolding is_access_token_valid pure
    is_access_token_valid_total = elim (Bool-cases (str_eq username git_username)) [
      | inr other ↦ (false, s, rw (other, is_access_token_valid) refl, omega arith)
      | inl same ↦
          rw (same, is_access_token_valid)
            (Outcome-Answers (with_retries-Outcome W _ _ _ max_retries 0 s))
    ]
