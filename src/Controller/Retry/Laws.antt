-- ===== src/Controller/Retry/Laws.antt =====
-- The retry loop: how many requests it makes, and which answer decides.
use github_app_operator.Base.{
  ℕ, zero, suc, ◌+◌, ◌≤◌, ◌<◌, ◌≡◌, refl, ◌⊎◌, inl, inr, String, [], ◌∷◌, arith,
}
use github_app_operator.World.{World, Call, Trace, Reply, HttpRequest, HttpResponse}
use github_app_operator.World.Action.{Action, State, Result, lift, ◌>>=◌, ◌>>◌}
use github_app_operator.World.Calls.{perform}
use github_app_operator.Controller.Retry.{
  Verdict, final, again, retry_after_seconds, wait_time, back_off, after_verdict, with_retries,
}

-- The requests that a trace holds.
abbrev pub requests : Trace → ℕ
requests [] = 0
requests (Call.http_do r ∷ t) = suc (requests t)
requests (_ ∷ t) = requests t

Verdict-cases :
    {A : Type 0} (v : Verdict A) → ((r : Result A) × (v ≡ final r)) ⊎ ((h : String) × (v ≡ again h))
Verdict-cases (final r) = inl (r, refl)
Verdict-cases (again h) = inr (h, refl)

-- The state after a request.
abbrev pub asked : HttpRequest → State → State
asked request s = record s { trace = Call.http_do request ∷ s.trace }

-- The state after the wait of round i, by the header retry-after.
abbrev pub waited : World → ℕ → String → State → State
waited W i h s =
    let wait = wait_time (retry_after_seconds (W.atoi h)) i (W.intn s.trace 500) in
    record s { trace = Call.sleep wait ∷ Call.rand_intn 500 ∷ s.trace }

module _ (W : World) {A : Type 0} (request : HttpRequest)
    (judge : Reply String HttpResponse → Verdict A) where
  -- k rounds from round i on, each answered by a rate limit.
  pub data Limited : ℕ → ℕ → State → State → Type 0 where
    no_round : {i : ℕ} {s : State} → Limited zero i s s
    one_round :
        {k i : ℕ} {s t : State} (h : String)
        → judge (W.http_do s.trace request) ≡ again h
        → Limited k (i + 1) (waited W i h (asked request s)) t
        → Limited (suc k) i s t

  -- How the loop ends: the first answer that is no rate limit decides, or all rounds are used up.
  pub data Outcome (exhausted : Result A) (left i : ℕ) (s : State) (out : Result A × State)
      : Type 0 where
    decided :
        (k : ℕ) (t : State) (r : Result A)
        → k < left
        → Limited k i s t
        → judge (W.http_do t.trace request) ≡ final r
        → out ≡ (r, asked request t)
        → Outcome exhausted left i s out
    gave_up :
        (t : State) → Limited left i s t → out ≡ (exhausted, t) → Outcome exhausted left i s out

  pub Limited-app : {k i : ℕ} {s t : State} → Limited k i s t → t.app ≡ s.app
  Limited-app no_round = refl
  Limited-app (one_round h e l) = Limited-app l

  pub requests-Limited :
      {k i : ℕ} {s t : State} → Limited k i s t → requests t.trace ≡ requests s.trace + k
  requests-Limited no_round = omega arith
  requests-Limited (one_round h e l) = omega (arith, requests-Limited l)

  module _ (exhausted : Result A) where
    with_retries-suc :
        (left i : ℕ) (s : State)
        → with_retries W request judge exhausted (suc left) i s
          ≡ after_verdict W i
              (with_retries W request judge exhausted left (i + 1))
              (judge (W.http_do s.trace request))
              (asked request s)
    unfolding with_retries ◌>>=◌ perform
    with_retries-suc left i s = refl

    back_off-bind :
        (i : ℕ) (h : String) (m : Action A) (s : State)
        → (back_off W i h >> m) s ≡ m (waited W i h s)
    unfolding back_off ◌>>=◌ perform
    back_off-bind i h m s = refl

    extend :
        {left i : ℕ} {s : State} {out : Result A × State} (h : String)
        → judge (W.http_do s.trace request) ≡ again h
        → Outcome exhausted left (i + 1) (waited W i h (asked request s)) out
        → Outcome exhausted (suc left) i s out
    extend h e (decided k t r lt l d o) = decided (suc k) t r (omega arith) (one_round h e l) d o
    extend h e (gave_up t l o) = gave_up t (one_round h e l) o

    -- The loop returns what the first answer that is no rate limit decides, after a wait by the
    -- header of each answer before it; if there is none in the rounds that are left, it returns
    -- the value for that, after as many requests as rounds.
    pub with_retries-Outcome :
        (left i : ℕ) (s : State)
        → Outcome exhausted left i s (with_retries W request judge exhausted left i s)
    with_retries-Outcome zero i s = gave_up s no_round (unfold with_retries lift in refl)
    with_retries-Outcome (suc left) i s = elim (Verdict-cases (judge (W.http_do s.trace request))) [
      | inl (r, e) ↦
          decided zero s r (omega arith) no_round e
            (rw (with_retries-suc left i s, e) (unfold lift in refl))
      | inr (h, e) ↦ extend h e (
          rw (with_retries-suc left i s, e, back_off-bind i h)
            (with_retries-Outcome left (i + 1) (waited W i h (asked request s))))
    ]

    -- At most one request a round.
    pub requests-with_retries :
        (left i : ℕ) (s : State)
        → requests (with_retries W request judge exhausted left i s).1.trace
          ≤ requests s.trace + left
    requests-with_retries left i s = bound (with_retries-Outcome left i s)
      where
        bound :
            {out : Result A × State}
            → Outcome exhausted left i s out
            → requests out.1.trace ≤ requests s.trace + left
        bound (decided k t r lt l d o) = rw o (omega (arith, requests-Limited l))
        bound (gave_up t l o) = rw o (omega (arith, requests-Limited l))
