-- ===== src/Controller/Gcp/Laws.antt =====
-- GetSecretFromSecretMgr of internal/controller/gcp_secret_mgr.go: the payload and the client.
use github_app_operator.Base.{
  String, ◌<>◌, ◌≡◌, refl, ap, sym, ◌∙◌, Bool-cases, inl, inr, Option, none, some, true, ◌∷◌, arith,
}
use github_app_operator.Base.Int.{ℤ, pos, negsuc, eq_ℤ}
use github_app_operator.Api.Types.{Bytes}
use github_app_operator.World.{World, Call, Trace, Payload, good}
use github_app_operator.World.Action.{
  Action, State, Result, ok, stop, lift, finally, need, ◌>>=◌, ◌>>◌,
}
use github_app_operator.World.Calls.{perform, gcp_close}
use github_app_operator.World.Invert.{perform-ok, bind-ok, lift-ok, need-ok, Reply-cases}
use github_app_operator.Controller.Gcp.{verify_checksum, access_secret, get_secret_from_secret_mgr}

-- The evidence for a key: the payload that GCP gave, whose checksum is the one that came with it.
pub record Verified (W : World) (name : String) (key : Bytes) : Type 0 where
  pub before : Trace
  pub payload : Payload
  pub accessed : W.gcp_access before name ≡ good payload
  pub checked : payload.data_crc32c ≡ some (W.checksum payload.bytes)
  pub decoded : W.base64_decode payload.bytes ≡ good key

eq_ℤ-true : (a b : ℤ) → eq_ℤ a b ≡ true → a ≡ b
eq_ℤ-true (pos a) (pos b) h = ap pos (ground arith)
eq_ℤ-true (negsuc a) (negsuc b) h = ap negsuc (ground arith)
eq_ℤ-true (pos a) (negsuc b) h = cc
eq_ℤ-true (negsuc a) (pos b) h = cc

verify_checksum-ok :
    (checksum : ℤ) (r : Option ℤ) → verify_checksum checksum r ≡ ok tt → r ≡ some checksum
verify_checksum-ok checksum none h = cc
verify_checksum-ok checksum (some crc) h = elim (Bool-cases (eq_ℤ checksum crc)) [
  | inl e ↦ ap some (sym (eq_ℤ-true checksum crc e))
  | inr e ↦ cc (rw (e, verify_checksum) at h)
]

two_lifts-trace :
    {A B : Type 0} (r : Result A) (q : Result B) (u : State)
    → ((lift r >> lift q) u).1.trace ≡ u.trace
unfolding ◌>>=◌ lift
two_lifts-trace (ok a) q u = refl
two_lifts-trace (stop e) q u = refl

module _ (W : World) (name : String) (s : State) where
  -- The calls of one access, the newest first.
  abbrev pub closed_access : Trace
  closed_access = Call.gcp_close ∷ Call.gcp_access name ∷ Call.gcp_new_client ∷ s.trace

  access_secret-ok :
      (v : State) {key : Bytes} {u : State}
      → access_secret W name v ≡ (ok key, u)
      → (p : Payload) × (W.gcp_access v.trace name ≡ good p)
        × (p.data_crc32c ≡ some (W.checksum p.bytes))
        × (W.base64_decode p.bytes ≡ good key)
  unfolding access_secret
  access_secret-ok v h =
      let (r, s₁, e₁, h₁) = bind-ok _ _ v h in
      let (p, s₂, e₂, h₂) = bind-ok _ _ s₁ h₁ in
      let (x, s₃, e₃, h₃) = bind-ok _ _ s₂ h₂ in
      (
        p,
        perform-ok _ _ v e₁ ∙ need-ok _ r (lift-ok _ s₁ e₂).0,
        verify_checksum-ok _ _ (lift-ok _ s₂ e₃).0,
        need-ok _ _ (lift-ok _ s₃ h₃).0,
      )

  access_secret-trace :
      (v : State) → (access_secret W name v).1.trace ≡ Call.gcp_access name ∷ v.trace
  unfolding access_secret ◌>>=◌ perform lift
  access_secret-trace v = elim (Reply-cases (W.gcp_access v.trace name)) [
    | inr (e, r) ↦ rw r
    | inl (p, r) ↦
        let after : State = record v { trace = Call.gcp_access name ∷ v.trace } in
        rw r (
          two_lifts-trace (verify_checksum (W.checksum p.bytes) p.data_crc32c)
            (need (λ e. "failed to base64 decode the gcp secret managed private key: " <> e)
              (W.base64_decode p.bytes))
            after)
  ]

  finally-ok :
      {A : Type 0} (m : Action A) (after : Action (Unit {0})) (v : State) {a : A} {u : State}
      → finally m after v ≡ (ok a, u)
      → (m v).0 ≡ ok a
  unfolding finally
  finally-ok m after v h = cc

  -- A key from GCP is the decoded payload that GCP gave for the name, and the payload's checksum is
  -- the one that came with it.
  pub get_secret_from_secret_mgr-Verified :
      {key : Bytes} {u : State}
      → get_secret_from_secret_mgr W name s ≡ (ok key, u)
      → Verified W name key
  unfolding get_secret_from_secret_mgr
  get_secret_from_secret_mgr-Verified h =
      let (e, s₁, e₁, h₁) = bind-ok _ _ s h in
      let (x, s₂, e₂, h₂) = bind-ok _ _ s₁ h₁ in
      let (p, accessed, checked, decoded) =
        access_secret-ok s₂
          (ap (λ r. (r, (access_secret W name s₂).1)) (finally-ok _ gcp_close s₂ h₂)) in
      record {
        before = s₂.trace;
        payload = p;
        accessed = accessed;
        checked = checked;
        decoded = decoded;
      }

  -- Once the client is created, there is exactly one access, and the client is closed after it,
  -- however the access and the tests of its payload end.
  pub get_secret_from_secret_mgr-closed_access :
      W.gcp_new_client s.trace ≡ none
      → (get_secret_from_secret_mgr W name s).1.trace ≡ closed_access
  unfolding get_secret_from_secret_mgr ◌>>=◌ perform lift finally
  get_secret_from_secret_mgr-closed_access h = rw h (
      ap (◌∷◌ Call.gcp_close)
        (access_secret-trace (record s { trace = Call.gcp_new_client ∷ s.trace })))
