-- ===== src/Controller/AccessToken/Kept.antt =====
-- The access token secret of createOrUpdateAccessToken in internal/controller/githubapp_controller.go,
-- from one call to a later one.
use github_app_operator.Base.{String, ◌≡◌, ◌≢◌, ◌⊎◌, lookup, none, [], ◌∷◌}
use github_app_operator.Api.Types.{GithubApp, Secret, ObjectKey}
use github_app_operator.World.{World, Call, Trace, good}
use github_app_operator.World.Since.{Since}
use github_app_operator.Controller.AccessToken.Announce.{AllowsAnnouncing}
use github_app_operator.Controller.AccessToken.{token_data}

abbrev pub key_of : Secret → ObjectKey
key_of x = record { namespace = x.meta.namespace; name = x.meta.name }

-- The call neither writes nor deletes the secret.
abbrev pub LeavesSecret : ObjectKey → Call → Type 0
LeavesSecret k (Call.create_secret x) = key_of x ≢ k
LeavesSecret k (Call.update_secret x) = key_of x ≢ k
LeavesSecret k (Call.delete_secret x) = key_of x ≢ k
LeavesSecret k _ = Unit

pub LeavesSecret-announcing : (W : World) (k : ObjectKey) → AllowsAnnouncing W (LeavesSecret k)
LeavesSecret-announcing W k = record {
  clock = tt;
  lists = λ n k v. tt;
  updates = λ x h. tt;
  events = λ e. tt;
  statuses = λ b. tt;
  sleeps = λ d. tt;
}

-- What the API server promises of secrets that nobody else writes to: Get gives the secret of the
-- name; what was written is there until it is written again or deleted, its string data in the
-- place of its data; and SetControllerReference changes nothing but the owner references.
pub record ServesSecrets (W : World) : Type 0 where
  pub named : (t : Trace) (k : ObjectKey) (x : Secret) → W.get_secret t k ≡ good x → key_of x ≡ k
  pub after_create :
      (t u : Trace) (x : Secret)
      → W.create_secret t x ≡ none
      → x.contents ≡ []
      → Since (LeavesSecret (key_of x)) (Call.create_secret x ∷ t) u
      → (y : Secret) × (W.get_secret u (key_of x) ≡ good y)
        × ((key : String) → lookup key y.contents ≡ lookup key x.string_data)
  pub after_update :
      (t u : Trace) (x : Secret)
      → W.update_secret t x ≡ none
      → x.contents ≡ []
      → Since (LeavesSecret (key_of x)) (Call.update_secret x ∷ t) u
      → (y : Secret) × (W.get_secret u (key_of x) ≡ good y)
        × ((key : String) → lookup key y.contents ≡ lookup key x.string_data)
  pub owned :
      (a : GithubApp) (x y : Secret)
      → W.set_controller_reference a x ≡ good y
      → (key_of y ≡ key_of x) × (y.contents ≡ x.contents) × (y.string_data ≡ x.string_data)

-- The token is in the secret k: it was written there, and the secret was left alone since.
pub record StoredToken (W : World) (k : ObjectKey) (token : String) (t : Trace) : Type 0 where
  pub secret : Secret
  pub before : Trace
  pub at : key_of secret ≡ k
  pub cleared : secret.contents ≡ []
  pub entries : secret.string_data ≡ token_data token
  pub taken :
      ((W.create_secret before secret ≡ none)
        × Since (LeavesSecret k) (Call.create_secret secret ∷ before) t)
      ⊎ ((W.update_secret before secret ≡ none)
          × Since (LeavesSecret k) (Call.update_secret secret ∷ before) t)

abbrev pub token_key : GithubApp → ObjectKey
token_key a = record { namespace = a.meta.namespace; name = a.spec.access_token_secret }
