-- ===== src/Controller/Token/Laws.antt =====
-- What a granted access token rests on, and how often generateAccessToken asks for it.
use github_app_operator.Base.{
  ◌+◌, ◌≤◌, ◌<◌, ◌≡◌, refl, inl, inr, String, ◌<>◌, ◌∷◌, arith, Option-cases,
}
use github_app_operator.Base.Int.{ℤ}
use github_app_operator.Api.Types.{Bytes}
use github_app_operator.World.{
  World, Call, Reply, good, bad, HttpResponse, post_access_tokens, Response,
}
use github_app_operator.World.Action.{State, Result, ok, stop, Stop, failed, lift, ◌>>=◌}
use github_app_operator.World.Calls.{perform}
use github_app_operator.World.Invert.{Reply-cases}
use github_app_operator.Controller.Retry.{final, max_retries, with_retries}
use github_app_operator.Controller.Retry.Laws.{
  requests, asked, Outcome, decided, gave_up, requests-Limited, with_retries-Outcome,
  requests-with_retries,
}
use github_app_operator.Controller.Token.{
  token_verdict, token_exhausted, claims_at, generate_access_token,
}

module _ (W : World) where
  token_verdict-ok :
      (reply : Reply String HttpResponse) {t : Response}
      → token_verdict W reply ≡ final (ok t)
      → (resp : HttpResponse) × (reply ≡ good resp)
        × (resp.status_code ≡ 201)
        × (W.decode_response resp.body ≡ good t)
  token_verdict-ok (bad e) h = ground arith
  token_verdict-ok (good resp) h = (resp, refl, ground arith, ground arith)

  -- The evidence for a granted token: the state in which the last request was made, the signed
  -- JWT, and GitHub's answer.
  pub record Granted (app_id installation_id : ℤ) (key : Bytes) (s : State) (t : Response)
      (s' : State) : Type 0 where
    pub before : State
    pub jwt : String
    pub answer : HttpResponse
    pub signed : W.sign_jwt key (claims_at W app_id (W.now s.trace)) ≡ good jwt
    pub answered :
        W.http_do before.trace (post_access_tokens (W.itoa installation_id) jwt) ≡ good answer
    pub created : answer.status_code ≡ 201
    pub decoded : W.decode_response answer.body ≡ good t
    pub ends : s' ≡ asked (post_access_tokens (W.itoa installation_id) jwt) before
    pub few : requests before.trace < requests s.trace + max_retries

  module _ (app_id installation_id : ℤ) (key : Bytes) (s : State) where
    -- The state after the clock is read.
    abbrev ticked : State
    ticked = record s { trace = Call.read_clock ∷ s.trace }

    abbrev ask : String → State → Result Response × State
    ask jwt =
        with_retries W (post_access_tokens (W.itoa installation_id) jwt) (token_verdict W)
          (token_exhausted W) max_retries 0

    -- Either no request is made, or the loop runs with the signed JWT.
    data Stage : Type 0 where
      unsigned :
          (e : Stop) (u : State)
          → generate_access_token W app_id installation_id key s ≡ (stop e, u)
          → requests u.trace ≡ requests s.trace
          → Stage
      sent :
          (jwt : String)
          → W.sign_jwt key (claims_at W app_id (W.now s.trace)) ≡ good jwt
          → generate_access_token W app_id installation_id key s ≡ ask jwt ticked
          → Stage

    stage : Stage
    unfolding generate_access_token ◌>>=◌ lift perform
    stage = elim (Option-cases (W.parse_rsa_key key)) [
      | inr (e, p) ↦
          unsigned (failed ("failed to parse private key: " <> e)) s (rw (p, generate_access_token))
            refl
      | inl p ↦ elim (Reply-cases (W.sign_jwt key (claims_at W app_id (W.now s.trace)))) [
        | inr (e, q) ↦ unsigned (failed ("failed to sign JWT: " <> e)) ticked (rw (p, q)) refl
        | inl (jwt, q) ↦ sent jwt q (rw (p, q))
      ]
    ]

    granted_by :
        {t : Response} {s' : State} (jwt : String)
        → W.sign_jwt key (claims_at W app_id (W.now s.trace)) ≡ good jwt
        → ask jwt ticked ≡ (ok t, s')
        → Outcome W
            (post_access_tokens (W.itoa installation_id) jwt)
            (token_verdict W)
            (token_exhausted W)
            max_retries
            0
            ticked
            (ask jwt ticked)
        → Granted app_id installation_id key s t s'
    granted_by jwt q h (gave_up u l o) = cc
    granted_by {t} jwt q h (decided k u r lt l d o) =
        let reply = W.http_do u.trace (post_access_tokens (W.itoa installation_id) jwt) in
        let e : token_verdict W reply ≡ final (ok t) = cc in
        let (resp, a, b, c) = token_verdict-ok reply e in
        record {
          before = u;
          jwt = jwt;
          answer = resp;
          signed = q;
          answered = a;
          created = b;
          decoded = c;
          ends = cc;
          few = omega (arith, requests-Limited W _ _ l);
        }

    -- An access token that is returned stands in the body of the last answer of GitHub, whose
    -- status is 201; it was asked for with the claims signed by the private key, and at most five
    -- requests were made.
    pub generate_access_token-Granted :
        {t : Response} {s' : State}
        → generate_access_token W app_id installation_id key s ≡ (ok t, s')
        → Granted app_id installation_id key s t s'
    generate_access_token-Granted h = elim stage [
      | unsigned e u p n ↦ cc
      | sent jwt q p ↦ granted_by jwt q (cc) (with_retries-Outcome W _ _ _ max_retries 0 ticked)
    ]

    -- Whatever GitHub answers, at most five requests are made.
    pub requests-generate_access_token :
        requests (generate_access_token W app_id installation_id key s).1.trace
        ≤ requests s.trace + 5
    requests-generate_access_token = elim stage [
      | unsigned e u p n ↦ rw p (omega arith)
      | sent jwt q p ↦ rw p (requests-with_retries W _ _ _ max_retries 0 ticked)
    ]
