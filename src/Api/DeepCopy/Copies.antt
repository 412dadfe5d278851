-- ===== src/Api/DeepCopy/Copies.antt =====
-- The functions of api/v1/zz_generated.deepcopy.go. A DeepCopyInto is given as the function from
-- the struct in to the struct that it leaves in out.
use mathlib.Core.Option
use github_app_operator.Base.{String, Option, none, some, List, [], ◌∷◌, Map, insert}
use github_app_operator.Api.Types.{Time, VaultPrivateKeySpec, GithubAppStatus}
use github_app_operator.Api.DeepCopy.Heap.{Addr, Heap, Heaped, read, new, store, ◌>>◌, pure, ◌>>=◌}
use github_app_operator.Api.DeepCopy.Structs.{
  RolloutOf, SpecOf, AppOf, GithubAppListOf, Cell, Kept, labels_kept, rollout_kept, vault_kept,
  spec_kept, status_kept, list_kept, app_kept, items_kept,
}

-- `if c != nil { return c }; return nil`, with a nil interface for `none`
abbrev pub as_runtime_object : {C : Type 0} → Option Addr → Heaped C (Option Addr)
as_runtime_object none = pure none
as_runtime_object (some q) = pure (some q)

module _ {C S : Type 0} (kept : Kept C S) where
  abbrev pub content_of : Option C → Option S
  content_of none = none
  content_of (some c) = kept.content c

  -- The value at an address; no other value than one of its type lies there.
  abbrev pub load : Addr → Heap C → Option S
  load p h = content_of (read p h)

  unfoldable pub fetch : Addr → Heaped C S
  fetch p h = Option.map (λ x. (x, h)) (load p h)

  -- The DeepCopy of a pointer, and the copy of a field that is one, from the DeepCopyInto of what
  -- it points to: `out := new(T)` with `*out = *in`, and then the rest of the DeepCopyInto.
  unfoldable pub deep_copy : (S → Heaped C S) → Option Addr → Heaped C (Option Addr)
  deep_copy into none = pure none
  deep_copy into (some p) = do
    x ← fetch p
    q ← new (kept.cell x)
    y ← into x
    store q (kept.cell y)
    pure (some q)

  -- DeepCopyObject
  unfoldable pub deep_copy_object : (S → Heaped C S) → Option Addr → Heaped C (Option Addr)
  deep_copy_object into p = do c ← deep_copy into p; as_runtime_object c

-- The loop over the entries of a map.
unfoldable pub copy_labels : Map String → Map String
copy_labels [] = []
copy_labels ((key, val) ∷ m) = insert key val (copy_labels m)

module _ {M L X : Type 0} where
  unfoldable pub rollout_deployment_spec_into :
      RolloutOf Addr → Heaped (Cell M L X) (RolloutOf Addr)
  rollout_deployment_spec_into x = do
    labels ← deep_copy labels_kept (λ m. pure (copy_labels m)) x.labels
    pure (record x { labels = labels })

  unfoldable pub vault_private_key_spec_into :
      VaultPrivateKeySpec → Heaped (Cell M L X) VaultPrivateKeySpec
  vault_private_key_spec_into x = pure x

  unfoldable pub github_app_spec_into : SpecOf Addr Addr → Heaped (Cell M L X) (SpecOf Addr Addr)
  github_app_spec_into x = do
    rollout ← deep_copy rollout_kept rollout_deployment_spec_into x.rollout_deployment
    vault ← deep_copy vault_kept vault_private_key_spec_into x.vault_private_key
    pure (record x { rollout_deployment = rollout; vault_private_key = vault })

  -- The functions of package metav1 are parameters.
  unfoldable pub github_app_status_into :
      (Time → Time) → GithubAppStatus → Heaped (Cell M L X) GithubAppStatus
  github_app_status_into copy_time x = pure (record x { expires_at = copy_time x.expires_at })

  module _ (copy_meta : M → Heaped (Cell M L X) M) (copy_time : Time → Time) where
    unfoldable pub github_app_into :
        AppOf M (SpecOf Addr Addr) → Heaped (Cell M L X) (AppOf M (SpecOf Addr Addr))
    github_app_into x = do
      meta ← copy_meta x.meta
      spec ← github_app_spec_into x.spec
      status ← github_app_status_into copy_time x.status
      pure (record x { meta = meta; spec = spec; status = status })

    -- `for i := range *in { (*in)[i].DeepCopyInto(&(*out)[i]) }`
    unfoldable pub copy_items :
        List (AppOf M (SpecOf Addr Addr)) → Heaped (Cell M L X) (List (AppOf M (SpecOf Addr Addr)))
    copy_items [] = pure []
    copy_items (x ∷ xs) = do y ← github_app_into x; ys ← copy_items xs; pure (y ∷ ys)

  unfoldable pub github_app_list_into :
      (M → Heaped (Cell M L X) M)
      → (L → Heaped (Cell M L X) L)
      → (Time → Time)
      → GithubAppListOf L Addr
      → Heaped (Cell M L X) (GithubAppListOf L Addr)
  github_app_list_into copy_meta copy_list_meta copy_time x = do
    meta ← copy_list_meta x.meta
    items ← deep_copy items_kept (copy_items copy_meta copy_time) x.items
    pure (record x { meta = meta; items = items })

  abbrev pub rollout_deployment_spec_deep_copy : Option Addr → Heaped (Cell M L X) (Option Addr)
  rollout_deployment_spec_deep_copy = deep_copy rollout_kept rollout_deployment_spec_into

  abbrev pub vault_private_key_spec_deep_copy : Option Addr → Heaped (Cell M L X) (Option Addr)
  vault_private_key_spec_deep_copy = deep_copy vault_kept vault_private_key_spec_into

  abbrev pub github_app_spec_deep_copy : Option Addr → Heaped (Cell M L X) (Option Addr)
  github_app_spec_deep_copy = deep_copy spec_kept github_app_spec_into

  abbrev pub github_app_status_deep_copy :
      (Time → Time) → Option Addr → Heaped (Cell M L X) (Option Addr)
  github_app_status_deep_copy copy_time = deep_copy status_kept (github_app_status_into copy_time)

  module _ (copy_meta : M → Heaped (Cell M L X) M) (copy_time : Time → Time) where
    abbrev pub github_app_deep_copy_object : Option Addr → Heaped (Cell M L X) (Option Addr)
    github_app_deep_copy_object = deep_copy_object app_kept (github_app_into copy_meta copy_time)

    abbrev pub github_app_list_deep_copy_object :
        (L → Heaped (Cell M L X) L) → Option Addr → Heaped (Cell M L X) (Option Addr)
    github_app_list_deep_copy_object copy_list_meta =
        deep_copy_object list_kept (github_app_list_into copy_meta copy_list_meta copy_time)
