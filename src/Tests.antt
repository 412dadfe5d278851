-- ===== src/Tests.antt =====
-- The theorems at concrete data: a cluster, its answers, and one run of each theorem.
pub mod Setting
pub mod Keys
pub mod Tokens
pub mod Reconciles
pub mod Sources
pub mod Copied
pub mod Start
pub mod Keeping
pub mod Renewals
