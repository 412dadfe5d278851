-- ===== src/Controller/AccessToken/Safety.antt =====
-- Which secret createOrUpdateAccessToken writes, and with what.
use github_app_operator.Base.{
  String, ◌≡◌, refl, ◌∙◌, ap, subst, [], ◌∷◌, Map, erase, arith, eq_iff, eq_refl,
}
use github_app_operator.Api.Types.{Time, Bytes, GithubApp, Secret}
use github_app_operator.World.{
  World, Call, Trace, Reply, good, bad, ApiError, not_found, conflict, other_failure, Response,
}
use github_app_operator.World.Action.{Action, State}
use github_app_operator.World.Calls.{perform}
use github_app_operator.World.Since.{
  Since, no_more, Keeps, Keeps-halt, Only, Fixed, Fixed-perform, Keeps-calls, Enters, Enters-bind,
  Enters-bind-value, Enters-lift, Enters-current_app, Enters-Keeps, fixed_rules, only_rules,
}
use github_app_operator.World.Invert.{need-ok}
use github_app_operator.Controller.Config.{Config}
use github_app_operator.Controller.Cache.{delete_private_key_cache}
use github_app_operator.Controller.PrivateKey.{get_private_key}
use github_app_operator.Controller.PrivateKey.Safety.{KeyCall, get_private_key-KeyCall}
use github_app_operator.Controller.Retry.Safety.{with_retries_safe}
use github_app_operator.Controller.Token.{generate_access_token}
use github_app_operator.Controller.Rollout.Safety.{Restamped}
use github_app_operator.Controller.AccessToken.Announce.{AllowsAnnouncing, announce-Only}
use github_app_operator.Controller.AccessToken.{
  token_data, new_secret, delete_keys, refreshed, ignore_error, announce,
  create_access_token_secret, update_access_token_secret, store_token, request_access_token,
  create_or_update_access_token,
}

erase_comm : (k j : String) (m : Map String) → erase k (erase j m) ≡ erase j (erase k m)
erase_comm k j [] = refl
erase_comm k j ((i, v) ∷ m) = ground (arith, eq_iff i k, eq_iff i j, erase_comm k j m)

delete_keys-erase :
    (met : Map String) (k : String) (m : Map String)
    → delete_keys met (erase k m) ≡ erase k (delete_keys met m)
unfolding delete_keys
delete_keys-erase [] k m = refl
delete_keys-erase ((j, v) ∷ met) k m =
    ap (delete_keys met) (erase_comm j k m) ∙ delete_keys-erase met k (erase j m)

-- The loop empties the map, whatever the order of the iteration.
pub delete_keys_self : (m : Map String) → delete_keys m m ≡ []
unfolding delete_keys
delete_keys_self [] = refl
delete_keys_self ((k, v) ∷ m) =
    rw (eq_refl k) (delete_keys-erase m k m ∙ ap (erase k) (delete_keys_self m))

-- What createOrUpdateAccessToken may do for the GithubApp a, as far as it concerns secrets and
-- files. A secret is created in the namespace of a under the name that its spec gives, and owned
-- by it; or the secret read under that name is updated, all its old data gone. Either way the data
-- written is the token and the fixed username. A deployment is updated as it was listed, but for
-- one template label.
unfoldable pub TokenCall : World → Config → GithubApp → Call → Type 0
TokenCall W c a (Call.create_secret x) =
    (token : String) × (W.set_controller_reference a (new_secret a a.spec.access_token_secret token)
      ≡ good x)
TokenCall W c a (Call.update_secret x) =
    (t : Trace) × (existing : Secret) × (owned : Secret) × (token : String) × (W.get_secret t
        (record { namespace = a.meta.namespace; name = a.spec.access_token_secret })
      ≡ good existing)
    × (W.set_controller_reference a existing ≡ good owned)
    × (x ≡ record { meta = owned.meta; contents = []; string_data = token_data token })
TokenCall W c a (Call.delete_secret x) = ⊥
TokenCall W c a (Call.update_deployment x) = Restamped W x
TokenCall W c a (Call.write_file p key) = KeyCall W c a (Call.write_file p key)
TokenCall W c a (Call.remove_file p) =
    p ≡ W.join (c.private_key_cache_path ∷ a.meta.namespace ∷ a.meta.name ∷ [])
TokenCall W c a _ = Unit

module _ (W : World) (c : Config) (a : GithubApp) where
  KeyCall-TokenCall : (x : Call) → KeyCall W c a x → TokenCall W c a x
  unfolding TokenCall
  KeyCall-TokenCall (Call.create_secret x) h = absurd h
  KeyCall-TokenCall (Call.update_secret x) h = absurd h
  KeyCall-TokenCall (Call.delete_secret x) h = absurd h
  KeyCall-TokenCall (Call.update_deployment x) h = absurd h
  KeyCall-TokenCall (Call.write_file p key) h = h
  KeyCall-TokenCall (Call.remove_file p) h = absurd h
  KeyCall-TokenCall _ h = tt

  TokenCall-announcing : AllowsAnnouncing W (TokenCall W c a)
  unfolding TokenCall
  TokenCall-announcing = record {
    clock = tt;
    lists = λ n k v. tt;
    updates = λ x h. h;
    events = λ e. tt;
    statuses = λ b. tt;
    sleeps = λ d. tt;
  }

  module _ (t₀ : Trace) where
    abbrev Calls : State → Type 0
    Calls = Only (TokenCall W c a) t₀

    announce_safe :
        (status_text rollout_text : String) (expires_at : Time)
        → Keeps Calls (announce W status_text rollout_text expires_at)
    announce_safe = announce-Only (TokenCall-announcing) t₀

    -- As long as the GithubApp has not been written by an update of the status.
    abbrev Early : State → Type 0
    Early = Fixed a (TokenCall W c a) t₀

    weaken : (s : State) → Early s → Calls s
    weaken s h = h.1

    request_safe : (key : Bytes) → Keeps Early (request_access_token W c a key)
    unfolding request_access_token generate_access_token ignore_error delete_private_key_cache
        TokenCall
    request_safe key = search (fixed_rules, with_retries_safe) depth 14

    private_key_safe : Keeps Early (get_private_key W c)
    private_key_safe = Keeps-calls _ KeyCall-TokenCall λ s e.
        subst (λ b. Fixed b (KeyCall W c b) s.trace (get_private_key W c s).1) e
          (get_private_key-KeyCall W c s)

    abbrev Stores : {A : Type 0} → Action A → Type 0
    Stores m = Enters Early Calls m

    create_safe :
        (token : String) (expires_at : Time)
        → Stores (create_access_token_secret W a.spec.access_token_secret token expires_at)
    unfolding create_access_token_secret TokenCall
    create_safe token expires_at = Enters-current_app _ (
        Enters-lift weaken _ _ λ owned e.
          Enters-bind weaken _ _ (Fixed-perform _ _ (token, need-ok _ _ e))
            λ err. Enters-Keeps weaken _ (search (only_rules, announce_safe) depth 8))

    refreshed_lem :
        (x : Secret) (token : String)
        → refreshed x token
          ≡ record { meta = x.meta; contents = []; string_data = token_data token }
    unfolding refreshed
    refreshed_lem x token = rw (delete_keys_self x.contents)

    update_safe :
        (t : Trace) (existing : Secret) (token : String) (expires_at : Time)
        → W.get_secret t
            (record { namespace = a.meta.namespace; name = a.spec.access_token_secret })
          ≡ good existing
        → Stores (update_access_token_secret W existing a.spec.access_token_secret token expires_at)
    unfolding update_access_token_secret TokenCall
    update_safe t existing token expires_at found = Enters-current_app _ (
        Enters-lift weaken _ _ λ owned e.
          Enters-bind weaken _ _
            (Fixed-perform _ _
              (t, existing, owned, token, found, need-ok _ _ e, refreshed_lem owned token))
            λ err. Enters-Keeps weaken _ (search (only_rules, announce_safe) depth 12))

    store_safe :
        (t : Trace) (r : Response) (reply : Reply ApiError Secret)
        → W.get_secret t
            (record { namespace = a.meta.namespace; name = a.spec.access_token_secret })
          ≡ reply
        → Stores (store_token W a.spec.access_token_secret r reply)
    unfolding store_token
    store_safe t r (good existing) e = update_safe t existing r.token r.expires_at e
    store_safe t r (bad (not_found x)) e = create_safe r.token r.expires_at
    store_safe t r (bad (conflict x)) e = Enters-Keeps weaken _ (Keeps-halt _)
    store_safe t r (bad (other_failure x)) e = Enters-Keeps weaken _ (Keeps-halt _)

    create_or_update_safe : Stores (create_or_update_access_token W c)
    unfolding create_or_update_access_token TokenCall perform
    create_or_update_safe = Enters-bind weaken _ _ private_key_safe λ (key, path).
        Enters-current_app _ (
          Enters-bind weaken _ _ (request_safe key) λ r.
            Enters-bind-value weaken _ _ (Fixed-perform _ _ tt)
              λ s reply u e. store_safe s.trace r reply (cc))

-- Whatever the world answers, createOrUpdateAccessToken writes no secret but the access token
-- secret of the GithubApp, and leaves nothing in it but the token and the fixed username; it
-- deletes no secret, writes and removes no file but the GithubApp's cached key, and changes nothing
-- in a deployment that it has listed but one template label.
pub create_or_update_access_token-TokenCall :
    (W : World) (c : Config) (s : State)
    → Since (TokenCall W c s.app) s.trace (create_or_update_access_token W c s).1.trace
create_or_update_access_token-TokenCall W c s =
    (create_or_update_safe W c s.app s.trace).at s (refl, no_more)
