-- ===== src/Api/DeepCopy/Laws.antt =====
-- The deep copies of api/v1/zz_generated.deepcopy.go, type by type.
use github_app_operator.Base.{
  String, ◌≡◌, refl, ap, ◌∙◌, Option, none, some, [], ◌∷◌, Map, lookup, lookup-insert, str_eq,
  if◌then◌else◌,
}
use github_app_operator.Api.Types.{VaultPrivateKeySpec}
use github_app_operator.Api.DeepCopy.Heap.{Addr, Heap, pure}
use github_app_operator.Api.DeepCopy.Structs.{
  RolloutOf, SpecOf, Cell, labels_kept, rollout_kept, vault_kept, spec_kept,
}
use github_app_operator.Api.DeepCopy.Copies.{
  copy_labels, github_app_spec_deep_copy, rollout_deployment_spec_into, vault_private_key_spec_into,
  github_app_spec_into,
}
use github_app_operator.Api.DeepCopy.Detached.{
  Detached-pure, Detached-bind, Framed, Copies, Independent, Copies-Independent, Points,
  Points-framed, deep_copy-Copies,
}

-- A map, by what it has for each key.
abbrev pub Labels : Type 0
Labels = String → Option String

lookup-copy_labels : (k : String) (m : Map String) → lookup k (copy_labels m) ≡ lookup k m
unfolding copy_labels
lookup-copy_labels k [] = refl
lookup-copy_labels k ((j, v) ∷ m) =
    lookup-insert j k v (copy_labels m)
    ∙ ap (λ o. if str_eq j k then some v else o) (lookup-copy_labels k m)

-- The fields of a spec that are no pointers.
abbrev plain : {R V : Type 0} → SpecOf R V → SpecOf (Unit {0}) (Unit {0})
plain x = record {
  app_id = x.app_id;
  install_id = x.install_id;
  private_key_secret = x.private_key_secret;
  rollout_deployment = none;
  vault_private_key = none;
  access_token_secret = x.access_token_secret;
  gcp_private_key_secret = x.gcp_private_key_secret;
}

module _ {M L X : Type 0} where
  abbrev LabelsIs : Map String → Labels → Heap (Cell M L X) → Type 0
  LabelsIs m f h = (k : String) → lookup k m ≡ f k

  abbrev RolloutIs : RolloutOf Addr → RolloutOf Labels → Heap (Cell M L X) → Type 0
  RolloutIs x v = Points labels_kept LabelsIs x.labels v.labels

  abbrev VaultIs : VaultPrivateKeySpec → VaultPrivateKeySpec → Heap (Cell M L X) → Type 0
  VaultIs x v h = x ≡ v

  -- The spec in memory is the spec v, with its pointers followed.
  abbrev pub SpecIs :
      SpecOf Addr Addr → SpecOf (RolloutOf Labels) VaultPrivateKeySpec → Heap (Cell M L X) → Type 0
  SpecIs x v h =
      Points rollout_kept RolloutIs x.rollout_deployment v.rollout_deployment h
      × Points vault_kept VaultIs x.vault_private_key v.vault_private_key h
      × (plain x ≡ plain v)

  RolloutIs-Framed : Framed RolloutIs
  RolloutIs-Framed x v = Points-framed labels_kept LabelsIs (λ m f h k g d. d) x.labels v.labels

  pub SpecIs-Framed : Framed SpecIs
  SpecIs-Framed x v h k g (r, p, e) = (
    Points-framed rollout_kept RolloutIs RolloutIs-Framed x.rollout_deployment v.rollout_deployment
        h k g r,
    Points-framed vault_kept VaultIs (λ y w h' k' g' d. d) x.vault_private_key v.vault_private_key h
        k g p,
    e,
  )

  rollout_deployment_spec_into-Copies : Copies RolloutIs rollout_deployment_spec_into
  unfolding rollout_deployment_spec_into
  rollout_deployment_spec_into-Copies x v h d =
      Detached-bind _ _ h
        (deep_copy-Copies labels_kept LabelsIs (λ m f h' k' g' d'. d') (λ m. pure (copy_labels m))
          (λ m f k e. Detached-pure (copy_labels m) k λ l key. lookup-copy_labels key m ∙ e key)
          x.labels v.labels h d)
        λ labels k g. Detached-pure (record x { labels = labels }) k λ l p. p

  vault_private_key_spec_into-Copies : Copies VaultIs vault_private_key_spec_into
  unfolding vault_private_key_spec_into
  vault_private_key_spec_into-Copies x v h d = Detached-pure x h λ k. d

  pub github_app_spec_into-Copies : Copies SpecIs github_app_spec_into
  unfolding github_app_spec_into
  github_app_spec_into-Copies x v h (r, p, e) =
      Detached-bind _ _ h
        (deep_copy-Copies rollout_kept RolloutIs RolloutIs-Framed _
          rollout_deployment_spec_into-Copies _ _ h r)
        λ rollout k g.
          Detached-bind _ _ k
            (deep_copy-Copies vault_kept VaultIs (λ y w h' k' g' d'. d') _
              vault_private_key_spec_into-Copies _ _ k
              (Points-framed vault_kept VaultIs (λ y w h' k' g' d. d) _ _ h k g p))
            λ vault l g'.
              Detached-pure (record x { rollout_deployment = rollout; vault_private_key = vault }) l
                λ m p' r'. (r', p', e)

  -- DeepCopy of a GithubAppSpec, nil or not, does not fault. What it returns is nil for nil, and has
  -- the original's value, the map and the two structs behind its pointers included; it keeps that
  -- value whatever is written to other cells than those it has allocated, and the original keeps
  -- its value whatever is written to those.
  pub github_app_spec_deep_copy-Independent :
      (p : Option Addr) (v : Option (SpecOf (RolloutOf Labels) VaultPrivateKeySpec))
      (h : Heap (Cell M L X))
      → Points spec_kept SpecIs p v h
      → Independent (Points spec_kept SpecIs) p v h (github_app_spec_deep_copy p h)
  github_app_spec_deep_copy-Independent =
      Copies-Independent (Points spec_kept SpecIs) _ (Points-framed spec_kept SpecIs SpecIs-Framed)
        (deep_copy-Copies spec_kept SpecIs SpecIs-Framed _ github_app_spec_into-Copies)
