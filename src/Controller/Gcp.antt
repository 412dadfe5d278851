-- ===== src/Controller/Gcp.antt =====
-- internal/controller/gcp_secret_mgr.go: a private key from a version of a GCP secret.
pub mod Laws
use github_app_operator.Base.{String, ◌<>◌, Option, none, some, if◌then◌else◌}
use github_app_operator.Base.Int.{ℤ, eq_ℤ}
use github_app_operator.Api.Types.{Bytes}
use github_app_operator.World.{World}
use github_app_operator.World.Action.{
  Action, Result, ok, stop, failed, panicked, lift, finally, no_error, need, ◌>>=◌, ◌>>◌,
}
use github_app_operator.World.Calls.{gcp_new_client, gcp_access, gcp_close}

-- `checksum != *result.Payload.DataCrc32C`: a nil pointer panics.
abbrev verify_checksum : ℤ → Option ℤ → Result (Unit {0})
verify_checksum checksum none = stop panicked
verify_checksum checksum (some crc) =
    if eq_ℤ checksum crc then ok tt else stop (failed "data corruption detected")

module _ (W : World) where
  -- What runs between the creation of the client and its deferred Close.
  access_secret : String → Action Bytes
  access_secret name = do
    r ← gcp_access W name
    payload ← lift (need (λ e. "failed to access secret version: " <> e) r)
    lift (verify_checksum (W.checksum payload.bytes) payload.data_crc32c)
    lift (
        need (λ e. "failed to base64 decode the gcp secret managed private key: " <> e)
          (W.base64_decode payload.bytes))

  unfoldable pub get_secret_from_secret_mgr : String → Action Bytes
  unfolding access_secret
  get_secret_from_secret_mgr name = do
    e ← gcp_new_client W
    lift (no_error (λ x. "failed to create secretmanager client: " <> x) e)
    finally (access_secret name) gcp_close
