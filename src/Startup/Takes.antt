-- ===== src/Startup/Takes.antt =====
-- How the parts of main of cmd/main.go end, part by part.
use github_app_operator.Base.{
  String, ◌≡◌, refl, sym, subst, ap, ◌∙◌, inl, inr, Bool, true, false, Option, none, some, List, [],
  ◌∷◌, ◌++◌, Option-cases, if◌then◌else◌,
}
use github_app_operator.World.{World, good}
use github_app_operator.World.Action.{State}
use github_app_operator.Controller.Config.{Config}
use github_app_operator.Controller.Setup.Total.{
  Configured, setup_with_manager-Configured, setup_with_manager-refused,
}
use github_app_operator.Startup.Options.{Flags, default_flags, scheme_builder}
use github_app_operator.Startup.Steps.{
  Step, add_client_go_scheme, add_to_scheme, set_logger, new_clientset, set_up_controller,
  set_up_webhook, Steps, Host, Ended, goes, exits, panics, Part, continue, pure, ◌>>=◌, ◌>>◌,
  step_or_exit, step_or_panic, take,
}
use github_app_operator.Startup.Main.{init, parse, process_at, set_up, setup_webhook_with_manager}

-- How a failed step ends the process: a panic for what must not fail, or else the status 1.
abbrev pub failure : {A : Type 0} → Step → String → Ended A
failure add_client_go_scheme e = panics e
failure (add_to_scheme b) e = panics e
failure new_clientset e = panics e
failure _ e = exits 1

-- The steps once they have been taken.
abbrev pub taking : List Step → Steps → Steps
taking [] t = t
taking (x ∷ xs) t = taking xs (x ∷ t)

continue_assoc :
    {A B C : Type 0} (r : Ended A) (t : Steps) (f : A → Part B) (g : B → Part C)
    → (let (q, u) = continue r f t in continue q g u) ≡ continue r (λ a. f a >>= g) t
unfolding ◌>>=◌
continue_assoc (goes a) t f g = refl
continue_assoc (exits code) t f g = refl
continue_assoc (panics e) t f g = refl

>>=-assoc :
    {A B C : Type 0} (m : Part A) (f : A → Part B) (g : B → Part C) (t : Steps)
    → ((m >>= f) >>= g) t ≡ (m >>= λ a. f a >>= g) t
unfolding ◌>>=◌
>>=-assoc m f g t = continue_assoc (m t).0 (m t).1 f g

module _ {Url : Type 0} (h : Host Url) where
  -- The error of a step; to set the logger cannot fail.
  abbrev pub error_of : Steps → Step → Option String
  error_of t (set_logger b) = none
  error_of t x = h.outcome t x

  abbrev pub Succeed : List Step → Steps → Type 0
  Succeed [] t = Unit
  Succeed (x ∷ xs) t = (error_of t x ≡ none) × Succeed xs (x ∷ t)

  -- How a part that is to take the steps xs ends.
  pub data Ending {A : Type 0} (P : A → Type 0) (xs : List Step) (t : Steps) (out : Ended A × Steps)
      : Type 0 where
    completed : (a : A) → P a → Succeed xs t → out ≡ (goes a, taking xs t) → Ending P xs t out
    stopped_at :
        (before after : List Step) (x : Step) (e : String)
        → xs ≡ before ++ (x ∷ after)
        → Succeed before t
        → error_of (taking before t) x ≡ some e
        → out ≡ (failure x e, x ∷ taking before t)
        → Ending P xs t out

  module _ {A : Type 0} {P : A → Type 0} where
    Ending-cons :
        (x : Step) (xs : List Step) (t : Steps) {out : Ended A × Steps}
        → error_of t x ≡ none
        → Ending P xs (x ∷ t) out
        → Ending P (x ∷ xs) t out
    Ending-cons x xs t e (completed a p s o) = completed a p (e, s) o
    Ending-cons x xs t e (stopped_at before after y f q s g o) =
        stopped_at (x ∷ before) after y f (ap (◌∷◌ x) q) (e, s) g o

    Ending-stop :
        (x : Step) (xs : List Step) (t : Steps) {e : String} {out : Ended A × Steps}
        → error_of t x ≡ some e
        → out ≡ (failure x e, x ∷ t)
        → Ending P (x ∷ xs) t out
    Ending-stop x xs t {e} g o = stopped_at [] xs x e refl tt g o

  -- The part n takes the steps xs, from wherever it starts.
  pub record Takes {A : Type 0} (P : A → Type 0) (xs : List Step) (n : Part A) : Type 0 where
    pub at : (t : Steps) → Ending P xs t (n t)

  module _ {A : Type 0} {P : A → Type 0} where
    pub Takes-pure : (a : A) → P a → Takes P [] (pure a)
    unfolding pure
    Takes-pure a p = record { at = λ t. completed a p tt refl }

    pub Takes-take :
        (b : Bool) (xs : List Step) (n : Part A)
        → Takes P xs n
        → Takes P (set_logger b ∷ xs) (take h (set_logger b) >> n)
    unfolding ◌>>=◌ take
    Takes-take b xs n k = record {
      at = λ t. Ending-cons (set_logger b) xs t refl (k.at (set_logger b ∷ t));
    }

    module _ (x : Step) (xs : List Step) (n : Part A)
        (err : (t : Steps) → error_of t x ≡ h.outcome t x) (k : Takes P xs n) where
      pub Takes-exit :
          ((e : String) → failure {A = A} x e ≡ exits 1) → Takes P (x ∷ xs) (step_or_exit h x >> n)
      unfolding ◌>>=◌ step_or_exit
      Takes-exit fail = record {
        at = λ t. elim (Option-cases (h.outcome t x)) [
          | inl e ↦ rw e (Ending-cons x xs t (err t ∙ e) (k.at (x ∷ t)))
          | inr (m, e) ↦ Ending-stop x xs t (err t ∙ e) (rw (e, fail m) refl)
        ];
      }

      pub Takes-panic :
          ((e : String) → failure {A = A} x e ≡ panics e)
          → Takes P (x ∷ xs) (step_or_panic h x >> n)
      unfolding ◌>>=◌ step_or_panic
      Takes-panic fail = record {
        at = λ t. elim (Option-cases (h.outcome t x)) [
          | inl e ↦ rw e (Ending-cons x xs t (err t ∙ e) (k.at (x ∷ t)))
          | inr (m, e) ↦ Ending-stop x xs t (err t ∙ e) (rw (e, fail m) refl)
        ];
      }

    pub Takes-set_up :
        (W : World) (s : State) (cache : String) (xs : List Step) (f : Config → Part A)
        → ((t : Steps) (c : Config)
            → Configured W (process_at h t cache) cache [] s c
            → Takes P xs (f c))
        → Takes P (set_up_controller cache ∷ xs) (set_up h W s cache >>= f)
    unfolding ◌>>=◌ set_up
    Takes-set_up W s cache xs f k = record {
      at = λ t. elim (Option-cases (h.outcome t (set_up_controller cache))) [
        | inl e ↦
            let (c, u, run, conf) =
              setup_with_manager-Configured W (process_at h t cache) cache [] s e in
            rw run (
              Ending-cons (set_up_controller cache) xs t e
                ((k t c conf).at (set_up_controller cache ∷ t)))
        | inr (m, e) ↦
            Ending-stop (set_up_controller cache) xs t e
              (rw (setup_with_manager-refused W (process_at h t cache) cache [] s e) refl)
      ];
    }

    pub Takes-init :
        (xs : List Step) (n : Part A)
        → Takes P xs n
        → Takes P (add_client_go_scheme ∷ add_to_scheme scheme_builder ∷ xs) (init h >> n)
    unfolding init
    Takes-init xs n k =
        let scheme = Takes-panic (add_to_scheme scheme_builder) xs n (λ t. refl) k (λ e. refl) in
        let both = Takes-panic add_client_go_scheme _ _ (λ t. refl) scheme (λ e. refl) in
        record {
          at = λ t.
              subst
                (λ out. Ending P (add_client_go_scheme ∷ add_to_scheme scheme_builder ∷ xs) t out)
                (sym (>>=-assoc (step_or_panic h add_client_go_scheme) _ _ t)) (both.at t);
        }

    pub Takes-parse :
        (flags : Flags) (xs : List Step) (f : Flags → Part A)
        → h.parse_flags default_flags ≡ good flags
        → Takes P xs (f flags)
        → Takes P xs (parse h >>= f)
    unfolding parse ◌>>=◌
    Takes-parse flags xs f e k = record { at = λ t. rw e (k.at t) }

    pub Takes-webhooks :
        (b : Bool) (xs : List Step) (n : Part A)
        → Takes P xs n
        → Takes P
            (if b then set_up_webhook ∷ xs else xs)
            ((if b then setup_webhook_with_manager h else pure tt) >> n)
    unfolding ◌>>=◌ pure setup_webhook_with_manager
    Takes-webhooks true xs n k = Takes-exit set_up_webhook xs n (λ t. refl) k (λ e. refl)
    Takes-webhooks false xs n k = record { at = λ t. k.at t }
