-- ===== src/Controller.antt =====
-- internal/controller: the reconciler of GithubApps.
pub mod Config
pub mod Cache
pub mod Vault
pub mod Gcp
pub mod PrivateKey
pub mod Retry
pub mod Token
pub mod Validity
pub mod Status
pub mod Rollout
pub mod AccessToken
pub mod Expiry
pub mod Owned
pub mod Reconcile
pub mod Predicates
pub mod Setup
