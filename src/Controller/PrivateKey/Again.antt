-- ===== src/Controller/PrivateKey/Again.antt =====
-- getPrivateKey of internal/controller/githubapp_controller.go, called again: the round trip
-- through the file cache.
use github_app_operator.Base.{
  String, ◌≡◌, sym, ap, subst, ◌≢◌, false, none, some, ◌∷◌, arith, eq_iff, inl, inr, Option,
  if◌then◌else◌,
}
use github_app_operator.Api.Types.{Bytes, GithubApp}
use github_app_operator.World.{World, Call, Trace, FileError, good}
use github_app_operator.World.Action.{State, Result, ok, pure, lift, ◌>>=◌}
use github_app_operator.World.Calls.{perform}
use github_app_operator.World.Since.{Since, and_then}
use github_app_operator.World.Invert.{bind-ok, pure-ok, Reply-cases}
use github_app_operator.Controller.Config.{Config}
use github_app_operator.Controller.Cache.{
  is_not_exist, is_nil, read_key, key_dir, key_path, get_private_key_from_cache,
}
use github_app_operator.Controller.PrivateKey.{is_empty, choose_source, get_private_key}
use github_app_operator.Controller.PrivateKey.Laws.{
  Provided, from_cache, fetched, no_source, get_private_key-bind, get_private_key-Provided,
}

-- The call neither writes nor removes the file.
abbrev pub LeavesFile : String → Call → Type 0
LeavesFile p (Call.write_file q b) = q ≢ p
LeavesFile p (Call.remove_file q) = q ≢ p
LeavesFile p _ = Unit

-- A file system that nobody else writes to: a file that was written, or that has been read, can be
-- read again, until it is written or removed.
pub record KeepsFiles (W : World) : Type 0 where
  pub after_write :
      (t u : Trace) (p : String) (b : Bytes)
      → W.write_file t p b ≡ none
      → Since (LeavesFile p) (Call.write_file p b ∷ t) u
      → (W.stat u p ≡ none) × (W.read_file u p ≡ good b)
  pub after_read :
      (t u : Trace) (p : String) (b : Bytes)
      → W.read_file t p ≡ good b
      → Since (LeavesFile p) (Call.read_file p ∷ t) u
      → (W.stat u p ≡ none) × (W.read_file u p ≡ good b)

module _ (W : World) (c : Config) where
  read_key-ok :
      (path : String) (s : State) {key : Bytes} {p : String} {t : State}
      → read_key W c path s ≡ (ok (key, p), t)
      → (W.read_file s.trace path ≡ good key)
        × (p ≡ path)
        × (t.trace ≡ Call.read_file path ∷ s.trace)
  unfolding read_key ◌>>=◌ perform lift pure
  read_key-ok path s {key} {p} {t} h = elim (Reply-cases (W.read_file s.trace path)) [
    | inl (k, r) ↦
        let after : State = record s { trace = Call.read_file path ∷ s.trace } in
        let same : ◌≡◌ {A = Result (Bytes × String) × State} (ok (k, path), after)
            (ok (key, p), t) =
          rw (r, read_key) at h in
        let state : t ≡ after = cc in (cc, cc, ap (λ (x : State). x.trace) state)
    | inr (e, r) ↦ cc (rw (r, read_key) at h)
  ]

  -- A key that came from the cache was read from its file by the last call.
  cache_read :
      (namespace name : String) (s : State) {key : Bytes} {path : String} {t : State}
      → get_private_key_from_cache W c namespace name s ≡ (ok (key, path), t)
      → key ≢ ""
      → (before : Trace) × (W.read_file before path ≡ good key)
        × (t.trace ≡ Call.read_file path ∷ before)
  unfolding get_private_key_from_cache
  cache_read namespace name s {key} {path} {t} h n =
      let (d, s₁, e₁, h₁) = bind-ok _ _ s h in
      let (x, s₂, e₂, h₂) = bind-ok _ _ s₁ h₁ in
      let (f, s₃, e₃, h₃) = bind-ok _ _ s₂ h₂ in last f s₃ h₃
    where
      last :
          (f : Option FileError) (u : State)
          → (if is_nil f
                then read_key W c (key_path W c namespace name)
                else pure ("", key_path W c namespace name))
              u
            ≡ (ok (key, path), t)
          → (before : Trace) × (W.read_file before path ≡ good key)
            × (t.trace ≡ Call.read_file path ∷ before)
      last none u k =
          let (r, p, q) = read_key-ok (key_path W c namespace name) u k in (u.trace, rw p r, rw p q)
      last (some e) u k = absurd (n (sym (ap (λ (y : Bytes × String). y.0) (pure-ok _ u k).0)))

  -- The state after the cache was read, with no directory to make.
  abbrev pub read_again : String → String → State → State
  read_again dir path u = record u {
    trace = Call.read_file path ∷ Call.stat path ∷ Call.stat dir ∷ u.trace;
  }

  choose_cached :
      (a : GithubApp) (key : Bytes) (path : String) (u : State)
      → is_empty key ≡ false
      → choose_source W c a (key, path) u ≡ (ok (key, path), u)
  unfolding choose_source pure
  choose_cached a key path u n = ground arith

  again_lem :
      (u : State) (key : Bytes)
      → let dir = key_dir W c u.app.meta.namespace in
        let path = key_path W c u.app.meta.namespace u.app.meta.name in
        is_not_exist (W.stat u.trace dir) ≡ false
        → W.stat (Call.stat dir ∷ u.trace) path ≡ none
        → W.read_file (Call.stat path ∷ Call.stat dir ∷ u.trace) path ≡ good key
        → is_empty key ≡ false
        → get_private_key W c u ≡ (ok (key, path), read_again dir path u)
  unfolding get_private_key_from_cache read_key ◌>>=◌ perform lift pure
  again_lem u key d f r n = rw (get_private_key-bind W c u, d, f, r) (choose_cached u.app key _ _ n)

  again_at :
      (u : State) (key : Bytes) (path : String)
      → let dir = key_dir W c u.app.meta.namespace in
        path ≡ key_path W c u.app.meta.namespace u.app.meta.name
        → is_not_exist (W.stat u.trace dir) ≡ false
        → W.stat (Call.stat dir ∷ u.trace) path ≡ none
        → W.read_file (Call.stat path ∷ Call.stat dir ∷ u.trace) path ≡ good key
        → is_empty key ≡ false
        → get_private_key W c u ≡ (ok (key, path), read_again dir path u)
  again_at u key path own d f r n =
      let dir = key_dir W c u.app.meta.namespace in
      subst
        (λ p.
          W.stat (Call.stat dir ∷ u.trace) p ≡ none
          → W.read_file (Call.stat p ∷ Call.stat dir ∷ u.trace) p ≡ good key
          → get_private_key W c u ≡ (ok (key, p), read_again dir p u))
        (sym own) (λ f r. again_lem u key d f r n) f r

  -- The file of the key can be read for as long as it is left alone.
  readable :
      KeepsFiles W
      → (s : State) {key : Bytes} {path : String} {t : State} → Provided W c s.app s key path t
      → key ≢ ""
      → (v : Trace) → Since (LeavesFile path) t.trace v
      → (W.stat v path ≡ none) × (W.read_file v path ≡ good key)
  readable files s {key} {path} {t} (from_cache n e) m v later =
      let (before, r, last) = cache_read _ _ s e n in
      files.after_read before v path key r (subst (λ x. Since (LeavesFile path) x v) last later)
  readable files s {key} {path} {t} (fetched k) m v later =
      files.after_write k.before.trace v path key k.written
        (subst (λ (x : State). Since (LeavesFile path) x.trace v) k.last later)
  readable files s (no_source e no_vault no_gcp no_secret) m v later = absurd (m e)

  module _ (files : KeepsFiles W) (s u : State) where
    -- A key that getPrivateKey has returned, if not empty, is returned again by every later call
    -- for the same GithubApp, from its cache file alone and whatever source the resource then
    -- names, as long as the file is left alone and its directory exists. The file system is taken
    -- to keep its files.
    pub get_private_key-again :
        {key : Bytes} {path : String} {t : State}
        → get_private_key W c s ≡ (ok (key, path), t)
        → key ≢ ""
        → u.app.meta.namespace ≡ s.app.meta.namespace
        → u.app.meta.name ≡ s.app.meta.name
        → Since (LeavesFile path) t.trace u.trace
        → is_not_exist (W.stat u.trace (key_dir W c u.app.meta.namespace)) ≡ false
        → get_private_key W c u
          ≡ (ok (key, path), read_again (key_dir W c u.app.meta.namespace) path u)
    get_private_key-again {key} {path} {t} h n same_namespace same_name later dir =
        let (q, provided) = get_private_key-Provided W c s h in
        let own : path ≡ key_path W c u.app.meta.namespace u.app.meta.name =
          rw (same_namespace, same_name) q in
        let readable_at = readable files s provided n in
        let before = Call.stat (key_dir W c u.app.meta.namespace) ∷ u.trace in
        again_at u key path own dir (readable_at before (and_then tt later)).0
          (readable_at (Call.stat path ∷ before) (and_then tt (and_then tt later))).1
          (ground (arith, eq_iff key ""))
