-- ===== src/Tests/Keeping.antt =====
-- The theorems on what is kept from one call to the next, at worlds that remember.
use github_app_operator.Base.{
  String, ◌≡◌, refl, sym, ap, Bool, true, false, ◌&&◌, ◌||◌, Bool-cases, inl, inr, none, some, [],
  ◌∷◌, Map, arith, eq_iff, str_eq, lookup, if◌then◌else◌,
}
use github_app_operator.Api.Types.{GithubApp, Secret, ObjectKey, no_meta}
use github_app_operator.World.{
  World, Call, Trace, good, bad, not_found, other_failure, not_exist, other_file_error,
}
use github_app_operator.World.Action.{
  State, ok, pure, halt, lift, current_app, on_error, wrap_error, ◌>>=◌,
}
use github_app_operator.World.Calls.{perform}
use github_app_operator.World.Since.{Since, no_more, and_then}
use github_app_operator.Controller.Config.{git_username}
use github_app_operator.Controller.Cache.{
  is_not_exist, get_private_key_from_cache, read_key, make_dir, key_dir, key_path,
}
use github_app_operator.Controller.PrivateKey.{
  get_private_key, choose_source, from_secret, get_private_key_from_secret, cache_key,
}
use github_app_operator.Controller.PrivateKey.Again.{KeepsFiles, read_again, get_private_key-again}
use github_app_operator.Controller.AccessToken.{token_data}
use github_app_operator.Controller.PrivateKey.Safety.{nonempty_of}
use github_app_operator.Controller.AccessToken.Kept.{key_of, ServesSecrets}
use github_app_operator.Controller.Reconcile.{reconcile}
use github_app_operator.Controller.Reconcile.Runs.{OperatorCall, served, idle, Run-OperatorCall}
use github_app_operator.Tests.Setting.{app, config, request, start, calm}

Run-OperatorCall_example :
    Since (OperatorCall calm config) [] (reconcile calm config request start).1.trace
Run-OperatorCall_example = Run-OperatorCall calm config (served request idle)

-- Whether the trace has a call of the kind.
abbrev has : (Call → Bool) → Trace → Bool
has kind [] = false
has kind (c ∷ t) = kind c || has kind t

has-Since :
    (kind : Call → Bool) {P : Call → Type 0} {t u : Trace}
    → has kind t ≡ true
    → Since P t u
    → has kind u ≡ true
has-Since kind h no_more = h
has-Since kind h (and_then {c} p k) = rw (has-Since kind h k) (ground arith)

abbrev is_write : Call → Bool
is_write (Call.write_file p b) = true
is_write _ = false

-- The files are those that were written, and no file takes anything but the one key.
abbrev filing : World
filing = record calm {
  stat = λ t p. if has is_write t then none else some (not_exist "no such file");
  read_file = λ t p. if has is_write t then good "PEM" else bad (not_exist "no such file");
  write_file = λ t p b. if str_eq b "PEM" then none else some (other_file_error "full");
}

filing_keeps : KeepsFiles filing
filing_keeps = record {
  after_write = λ t u p b h k.
      let w : has is_write u ≡ true = has-Since is_write refl k in
      let same : b ≡ "PEM" = ground (arith, eq_iff b "PEM", h) in (rw w refl, rw (w, same) refl);
  after_read = λ t u p b h k. elim (Bool-cases (has is_write t)) [
    | inl w ↦
        let v : has is_write u ≡ true = has-Since is_write w k in
        let same : "PEM" ≡ b = cc (rw w at h) in (rw v refl, rw (v, same) refl)
    | inr w ↦ cc (rw w at h)
  ];
}

abbrev filed : State
filed = (get_private_key filing config start).1

abbrev path : String
path = key_path filing config "team" "app"

filed_key : get_private_key filing config start ≡ (ok ("PEM", path), filed)
unfolding get_private_key get_private_key_from_cache make_dir read_key choose_source from_secret
    get_private_key_from_secret cache_key ◌>>=◌ pure lift halt current_app perform wrap_error
    on_error
filed_key = refl

filed_dir : is_not_exist (filing.stat filed.trace (key_dir filing config "team")) ≡ false
unfolding get_private_key get_private_key_from_cache make_dir read_key choose_source from_secret
    get_private_key_from_secret cache_key ◌>>=◌ pure lift halt current_app perform wrap_error
    on_error
filed_dir = refl

-- After the key was fetched and cached, the resource names no source any more.
abbrev moved : State
moved = record filed { app = record app { spec = record app.spec { private_key_secret = "" } } }

get_private_key-again_example :
    get_private_key filing config moved
    ≡ (ok ("PEM", path), read_again filing config (key_dir filing config "team") path moved)
get_private_key-again_example =
    get_private_key-again filing config filing_keeps start moved filed_key (nonempty_of "PEM" refl)
      refl refl no_more filed_dir

abbrev is_create : Call → Bool
is_create (Call.create_secret x) = true
is_create _ = false

abbrev token_secret : ObjectKey → Secret
token_secret k = record {
  meta = record no_meta { name = k.name; namespace = k.namespace };
  contents = token_data "ghs";
  string_data = [];
}

abbrev key_secret : ObjectKey → Secret
key_secret k = record (token_secret k) { contents = ("privateKey", "PEM") ∷ [] }

abbrev is_token_data : Map String → Bool
is_token_data ((j, v) ∷ (k, w) ∷ []) =
    str_eq j "token" && str_eq v "ghs" && str_eq k "username" && str_eq w git_username
is_token_data _ = false

-- The GithubApp with a token that expires at 5000.
abbrev pub granted_app : GithubApp
granted_app = record app { status = record app.status { expires_at = 5000 } }

-- The API server keeps the token secret once it is created, and takes no other secret.
abbrev pub keeping : World
keeping = record calm {
  get_app = λ t k. (none, granted_app);
  get_secret = λ t k.
      if str_eq k.name "token"
      then (if has is_create t then good (token_secret k) else bad (not_found "no such secret"))
      else good (key_secret k);
  create_secret = λ t x.
      if str_eq x.meta.name "token" && is_token_data x.string_data
      then none
      else some (other_failure "forbidden");
  update_secret = λ t x. some (other_failure "forbidden");
}

is_token_data_lem : (m : Map String) → is_token_data m ≡ true → m ≡ token_data "ghs"
is_token_data_lem [] h = cc
is_token_data_lem (x ∷ []) h = cc
is_token_data_lem ((j, v) ∷ (k, w) ∷ []) h =
    ground (arith, eq_iff j "token", eq_iff v "ghs", eq_iff k "username", eq_iff w git_username)
is_token_data_lem (x ∷ y ∷ z ∷ m) h = cc

pub keeping_serves : ServesSecrets keeping
keeping_serves = record {
  named = λ t k x h. elim (Bool-cases (str_eq k.name "token")) [
    | inl n ↦ elim (Bool-cases (has is_create t)) [
      | inl m ↦ let same : token_secret k ≡ x = cc (rw (n, m) at h) in ap key_of (sym same)
      | inr m ↦ cc (rw (n, m) at h)
    ]
    | inr n ↦ let same : key_secret k ≡ x = cc (rw n at h) in ap key_of (sym same)
  ];
  after_create = λ t u x h c k.
      let v : has is_create u ≡ true = has-Since is_create refl k in
      let n : str_eq x.meta.name "token" ≡ true = ground (arith, h) in
      let m : is_token_data x.string_data ≡ true = ground (arith, h) in
      (
        token_secret (key_of x),
        rw (n, v) refl,
        λ key. ap (lookup key) (sym (is_token_data_lem x.string_data m)),
      );
  after_update = λ t u x h c k. cc;
  owned = λ a x y h. let same : x ≡ y = cc in rw same (refl, refl, refl);
}
