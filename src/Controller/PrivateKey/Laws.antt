-- ===== src/Controller/PrivateKey/Laws.antt =====
-- What a successful getPrivateKey has given and done.
use github_app_operator.Base.{
  String, ◌≡◌, refl, ◌≢◌, none, inl, inr, ◌∷◌, arith, str_eq, eq_iff, Bool-cases, Option-cases,
  subst, sym, ◌∙◌,
}
use github_app_operator.Api.Types.{Bytes, GithubApp}
use github_app_operator.Api.Webhook.{
  validate_create, KeySource, from_gcp as by_gcp, from_kubernetes, from_vault as by_vault,
}
use github_app_operator.Api.Webhook.Laws.{validate_create-KeySource}
use github_app_operator.World.{World, Call}
use github_app_operator.World.Action.{State, Result, ok, pure, lift, current_app, halt, ◌>>=◌}
use github_app_operator.World.Calls.{perform}
use github_app_operator.World.Invert.{bind-ok}
use github_app_operator.Controller.Config.{Config}
use github_app_operator.Controller.Cache.{key_path, get_private_key_from_cache}
use github_app_operator.Controller.PrivateKey.{
  is_empty, cache_key, from_vault, from_gcp, from_secret, choose_source, get_private_key,
}
use github_app_operator.Controller.PrivateKey.Safety.{get_private_key_from_cache-path, nonempty_of}

module _ (W : World) (c : Config) where
  -- The key was written to its cache file by the last call, which succeeded.
  pub record Cached (path : String) (key : Bytes) (t : State) : Type 0 where
    pub nonempty : key ≢ ""
    pub before : State
    pub written : W.write_file before.trace path key ≡ none
    pub last : t ≡ record before { trace = Call.write_file path key ∷ before.trace }

  cache_key-Cached :
      (message path : String) (key : Bytes) (s : State) {k : Bytes} {p : String} {t : State}
      → cache_key W message path key s ≡ (ok (k, p), t)
      → (p ≡ path) × Cached path k t
  unfolding cache_key ◌>>=◌ perform lift pure halt
  cache_key-Cached message path key s {k} {p} {t} h = elim (Bool-cases (is_empty key)) [
    | inl e ↦ cc (rw (e, cache_key) at h)
    | inr e ↦ elim (Option-cases (W.write_file s.trace path key)) [
      | inr (x, w) ↦ cc (rw (e, w, cache_key) at h)
      | inl w ↦
          let after = record s { trace = Call.write_file path key ∷ s.trace } in
          let same : ◌≡◌ {A = Result (Bytes × String) × State} (ok (key, path), after)
              (ok (k, p), t) =
            rw (e, w, cache_key) at h in
          let same_key : key ≡ k = cc in
          (
            cc,
            record {
              nonempty = subst (λ x. x ≢ "") same_key (nonempty_of key e);
              before = s;
              written = cc;
              last = cc;
            },
          )
    ]
  ]

  from_vault-Cached :
      (path : String) (s : State) {k : Bytes} {p : String} {t : State}
      → from_vault W c path s ≡ (ok (k, p), t)
      → (p ≡ path) × Cached path k t
  unfolding from_vault
  from_vault-Cached path s h =
      let (a, s₁, e₁, h₁) = bind-ok _ _ s h in
      let (u, s₂, e₂, h₂) = bind-ok _ _ s₁ h₁ in
      let (v, s₃, e₃, h₃) = bind-ok _ _ s₂ h₂ in
      let (key, s₄, e₄, h₄) = bind-ok _ _ s₃ h₃ in cache_key-Cached _ path key s₄ h₄

  from_gcp-Cached :
      (path : String) (s : State) {k : Bytes} {p : String} {t : State}
      → from_gcp W c path s ≡ (ok (k, p), t)
      → (p ≡ path) × Cached path k t
  unfolding from_gcp
  from_gcp-Cached path s h =
      let (key, s₁, e₁, h₁) = bind-ok _ _ s h in cache_key-Cached _ path key s₁ h₁

  from_secret-Cached :
      (path : String) (s : State) {k : Bytes} {p : String} {t : State}
      → from_secret W c path s ≡ (ok (k, p), t)
      → (p ≡ path) × Cached path k t
  unfolding from_secret
  from_secret-Cached path s h =
      let (key, s₁, e₁, h₁) = bind-ok _ _ s h in cache_key-Cached _ path key s₁ h₁

  -- How getPrivateKey came by its key.
  pub data Provided (a : GithubApp) (s : State) (key : Bytes) (path : String) (t : State)
      : Type 0 where
    -- It was cached, and is returned as it was, with no call but those of the cache.
    from_cache :
        key ≢ ""
        → get_private_key_from_cache W c a.meta.namespace a.meta.name s ≡ (ok (key, path), t)
        → Provided a s key path t
    -- The cache gave none; it was fetched from a source, and is cached now.
    fetched : Cached path key t → Provided a s key path t
    -- The cache gave none, and the resource names no source: the key is empty.
    no_source :
        key ≡ ""
        → a.spec.vault_private_key ≡ none
        → a.spec.gcp_private_key_secret ≡ ""
        → a.spec.private_key_secret ≡ ""
        → Provided a s key path t

  -- Which branch the three tests take.
  data Choice (a : GithubApp) (k₀ : Bytes) (path : String) : Type 0 where
    keep : k₀ ≢ "" → choose_source W c a (k₀, path) ≡ pure (k₀, path) → Choice a k₀ path
    vault : choose_source W c a (k₀, path) ≡ from_vault W c path → Choice a k₀ path
    gcp : choose_source W c a (k₀, path) ≡ from_gcp W c path → Choice a k₀ path
    kubernetes : choose_source W c a (k₀, path) ≡ from_secret W c path → Choice a k₀ path
    nothing :
        k₀ ≡ ""
        → a.spec.vault_private_key ≡ none
        → a.spec.gcp_private_key_secret ≡ ""
        → a.spec.private_key_secret ≡ ""
        → choose_source W c a (k₀, path) ≡ pure (k₀, path)
        → Choice a k₀ path

  choose : (a : GithubApp) (k₀ : Bytes) (path : String) → Choice a k₀ path
  unfolding choose_source
  choose a k₀ path = elim (Bool-cases (is_empty k₀)) [
    | inr full ↦ keep (nonempty_of k₀ full) (ground arith)
    | inl empty ↦ elim (Option-cases a.spec.vault_private_key) [
      | inr (v, set) ↦ vault (rw (set, empty, choose_source))
      | inl no_vault ↦ elim (Bool-cases (str_eq a.spec.gcp_private_key_secret "")) [
        | inr g ↦ gcp (rw (no_vault, empty, g, choose_source))
        | inl no_gcp ↦ elim (Bool-cases (str_eq a.spec.private_key_secret "")) [
          | inr k ↦ kubernetes (rw (no_vault, empty, no_gcp, k, choose_source))
          | inl no_secret ↦
              nothing ((eq_iff _ _).0 empty) no_vault ((eq_iff _ _).0 no_gcp)
                ((eq_iff _ _).0 no_secret) (rw (no_vault, empty, no_gcp, no_secret, choose_source))
        ]
      ]
    ]
  ]

  choose_source-Provided :
      (a : GithubApp) (s u : State) (k₀ : Bytes) (path : String) {key : Bytes} {p : String}
      {t : State}
      → get_private_key_from_cache W c a.meta.namespace a.meta.name s ≡ (ok (k₀, path), u)
      → choose_source W c a (k₀, path) u ≡ (ok (key, p), t)
      → Choice a k₀ path
      → (p ≡ path) × Provided a s key path t
  unfolding pure
  choose_source-Provided a s u k₀ path {key} {p} {t} cached h (vault e) =
      let (q, k) = from_vault-Cached path u (rw e at h) in (q, fetched k)
  choose_source-Provided a s u k₀ path cached h (gcp e) =
      let (q, k) = from_gcp-Cached path u (rw e at h) in (q, fetched k)
  choose_source-Provided a s u k₀ path cached h (kubernetes e) =
      let (q, k) = from_secret-Cached path u (rw e at h) in (q, fetched k)
  choose_source-Provided a s u k₀ path {key} {p} {t} cached h (keep n e) =
      let same : ◌≡◌ {A = Result (Bytes × String) × State} (ok (k₀, path), u) (ok (key, p), t) =
        rw e at h in
      let same_key : k₀ ≡ key = cc in (cc, from_cache (subst (λ x. x ≢ "") same_key n) (cc))
  choose_source-Provided a s u k₀ path {key} {p} {t} cached h
        (nothing n no_vault no_gcp no_secret e) =
      let same : ◌≡◌ {A = Result (Bytes × String) × State} (ok (k₀, path), u) (ok (key, p), t) =
        rw e at h in
      (cc, no_source (cc) no_vault no_gcp no_secret)

  pub get_private_key-bind :
      (s : State)
      → get_private_key W c s
        ≡ (get_private_key_from_cache W c s.app.meta.namespace s.app.meta.name
              >>= choose_source W c s.app)
            s
  unfolding get_private_key current_app ◌>>=◌
  get_private_key-bind s = refl

  -- A key that getPrivateKey returns without an error was in the cache, or it is in the cache now,
  -- written by the last call; or the resource names no source, and the key is empty. The path
  -- returned is that of the GithubApp's own cache file.
  pub get_private_key-Provided :
      (s : State) {key : Bytes} {path : String} {t : State}
      → get_private_key W c s ≡ (ok (key, path), t)
      → (path ≡ key_path W c s.app.meta.namespace s.app.meta.name) × Provided s.app s key path t
  get_private_key-Provided s {key} {t} h =
      let (cached, u, e, k) = bind-ok _ _ s (sym (get_private_key-bind s) ∙ h) in
      let (q, provided) =
        choose_source-Provided s.app s u cached.0 cached.1 e k (choose s.app cached.0 cached.1) in
      (
        q ∙ get_private_key_from_cache-path W c _ _ s e,
        subst (λ x. Provided s.app s key x t) (sym q) provided,
      )

  Provided-nonempty :
      {a : GithubApp} {s : State} {key : Bytes} {path : String} {t : State}
      → KeySource a.spec
      → Provided a s key path t
      → key ≢ ""
  Provided-nonempty k (from_cache n e) = n
  Provided-nonempty k (fetched r) = r.nonempty
  Provided-nonempty (by_gcp g x v) (no_source n no_vault no_gcp no_secret) = absurd (g no_gcp)
  Provided-nonempty (from_kubernetes g x v) (no_source n no_vault no_gcp no_secret) =
      absurd (x no_secret)
  Provided-nonempty (by_vault g x v) (no_source n no_vault no_gcp no_secret) = absurd (v no_vault)

  -- For a GithubApp that the webhook admits, getPrivateKey never returns an empty key without an
  -- error.
  pub get_private_key-validate_create :
      (s : State) {key : Bytes} {path : String} {t : State}
      → validate_create s.app ≡ none
      → get_private_key W c s ≡ (ok (key, path), t)
      → key ≢ ""
  get_private_key-validate_create s v h =
      Provided-nonempty ((validate_create-KeySource s.app s.app).0.0 v)
        (get_private_key-Provided s h).1
