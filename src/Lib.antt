-- ===== src/Lib.antt =====
-- A verification of the GitHub App operator: a Kubernetes controller that keeps, for each custom
-- resource GithubApp, a secret with a valid GitHub installation access token.
--
-- The program. Reconcile (internal/controller/githubapp_controller.go) reads the GithubApp. If it is
-- gone or being deleted, the owned secrets and the cached private key are removed. Otherwise the
-- expiry check decides whether the token must be renewed; a renewal gets the private key (from a
-- file cache, Vault, GCP Secret Manager or a Kubernetes secret), asks GitHub for a token with a
-- signed JWT, stores it in a secret, records its expiry in the status, and restarts deployments.
-- An admission webhook (api/v1/githubapp_webhook.go) demands exactly one source of the private key.
--
-- The model. A call of the program is an `Action`: a function from a `State`, which is the shared
-- *GithubApp and the trace of the calls made so far, to a result and a state. All that lies outside
-- is a `World`: it answers each call from the trace before it, and may answer in any way. An error
-- is a value `stop (failed text)`; a nil dereference or a write to a nil map is `panicked`. The
-- theorems hold for every world; what they demand of one is a named hypothesis. For main, what lies
-- outside is a `Host`: the flags, the environment, and the error of each step that main takes.
--
--   Base, Base.Lists, Base.Int, Base.Tests    shared names, Go maps, int64, Boolean tests
--   Api.Types        api/v1/githubapp_types.go
--   Api.Webhook      api/v1/githubapp_webhook.go: validateGithubAppSpec, Validate*
--   Api.DeepCopy     api/v1/zz_generated.deepcopy.go, on a heap
--   World            what third-party code answers; World.Action, World.Calls: errors and calls;
--                    World.Since, World.Invert: rules for what an action may do and has done
--   Controller.Config       the package variables
--   Controller.Cache        getPrivateKeyFromCache, deletePrivateKeyCache
--   Controller.Vault        internal/controller/vault.go, getPrivateKeyFromVault
--   Controller.Gcp          internal/controller/gcp_secret_mgr.go
--   Controller.PrivateKey   getPrivateKey and its sources
--   Controller.Retry        the retry loop of generateAccessToken and isAccessTokenValid
--   Controller.Token        generateAccessToken
--   Controller.Validity     isAccessTokenValid
--   Controller.Status       updateStatusWithError, updateGithubAppStatusWithRetry
--   Controller.Rollout      rolloutDeployment
--   Controller.AccessToken  createAccessTokenSecret, updateAccessTokenSecret,
--                           createOrUpdateAccessToken
--   Controller.Expiry       checkExpiryAndUpdateAccessToken, checkExpiryAndRequeue
--   Controller.Owned        deleteOwnedSecrets
--   Controller.Reconcile    Reconcile
--   Controller.Predicates   githubAppPredicate, accessTokenSecretPredicate
--   Controller.Setup        getServiceAccountAndNamespace, SetupWithManager
--   Startup                 cmd/main.go, api/v1/groupversion_info.go: init and main by steps
--   Tests                   concrete worlds, and the theorems at them
--
-- Loops and numbers. The retry loop runs on the rounds that are left, five. The loop of
-- updateGithubAppStatusWithRetry has no bound of its own: it runs on fuel, one more than the
-- attempts allowed, which is enough because the attempt with the last number returns. All other
-- loops are over lists; a Go map is a list of its entries in the order of an iteration. Durations
-- are int64 with wrap-around; instants are nanoseconds after Go's zero time.
--
-- The heap of the deep copies has an address for each pointer, map and slice, and holds each struct
-- as it lies in memory; what a DeepCopyInto leaves in out is written there when it is complete.
--
-- Not modelled: logging; the closing of response bodies; the mutex, which makes a Reconcile one
-- action; the manager that main starts, and the queue that calls Reconcile; the bytes of HTTP, JSON,
-- JWT, base64 and CRC32C, which are functions of the world.
pub mod Base
pub mod Api
pub mod World
pub mod Controller
pub mod Startup
pub mod Tests
