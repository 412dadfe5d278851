-- ===== src/Api.antt =====
-- api/v1: the GithubApp resource and its validating webhook.
pub mod Types
pub mod Webhook
pub mod DeepCopy
