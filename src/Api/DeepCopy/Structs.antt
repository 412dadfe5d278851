-- ===== src/Api/DeepCopy/Structs.antt =====
-- The structs of api/v1/githubapp_types.go as they lie in memory, with an address for each
-- pointer, map and slice, and the functions of api/v1/zz_generated.deepcopy.go on them.
use github_app_operator.Base.{String, ◌≡◌, refl, Option, none, some, List, Map}
use github_app_operator.Base.Int.{ℤ}
use github_app_operator.Api.Types.{VaultPrivateKeySpec, GithubAppStatus}
use github_app_operator.Api.DeepCopy.Heap.{Addr}

pub record TypeMeta : Type 0 where
  pub kind : String
  pub api_version : String

-- RolloutDeploymentSpec, by what stands for its map.
pub record RolloutOf (L : Type 0) : Type 0 where
  pub labels : Option L

-- GithubAppSpec, by what stands for its two pointers.
pub record SpecOf (R V : Type 0) : Type 0 where
  pub app_id : ℤ
  pub install_id : ℤ
  pub private_key_secret : String
  pub rollout_deployment : Option R
  pub vault_private_key : Option V
  pub access_token_secret : String
  pub gcp_private_key_secret : String

-- GithubApp, by what stands for its ObjectMeta and its Spec.
pub record AppOf (M S : Type 0) : Type 0 where
  pub type_meta : TypeMeta
  pub meta : M
  pub spec : S
  pub status : GithubAppStatus

-- GithubAppList, by what stands for its ListMeta and its slice.
pub record GithubAppListOf (M I : Type 0) : Type 0 where
  pub type_meta : TypeMeta
  pub meta : M
  pub items : Option I

-- What an address holds. The cells of ObjectMeta and ListMeta are the parameter X.
pub data Cell (M L X : Type 0) : Type 0 where
  labels_cell : Map String → Cell M L X
  rollout_cell : RolloutOf Addr → Cell M L X
  vault_cell : VaultPrivateKeySpec → Cell M L X
  spec_cell : SpecOf Addr Addr → Cell M L X
  status_cell : GithubAppStatus → Cell M L X
  app_cell : AppOf M (SpecOf Addr Addr) → Cell M L X
  items_cell : List (AppOf M (SpecOf Addr Addr)) → Cell M L X
  list_cell : GithubAppListOf L Addr → Cell M L X
  other_cell : X → Cell M L X

-- How the values of a type lie in a cell.
pub record Kept (C S : Type 0) : Type 0 where
  pub cell : S → C
  pub content : C → Option S
  pub content-cell : (x : S) → content (cell x) ≡ some x

module _ {M L X : Type 0} where
  abbrev pub labels_kept : Kept (Cell M L X) (Map String)
  labels_kept = record {
    cell = labels_cell;
    content = λ c. elim c [ labels_cell m ↦ some m | _ ↦ none ];
    content-cell = λ x. refl;
  }

  abbrev pub rollout_kept : Kept (Cell M L X) (RolloutOf Addr)
  rollout_kept = record {
    cell = rollout_cell;
    content = λ c. elim c [ rollout_cell r ↦ some r | _ ↦ none ];
    content-cell = λ x. refl;
  }

  abbrev pub vault_kept : Kept (Cell M L X) VaultPrivateKeySpec
  vault_kept = record {
    cell = vault_cell;
    content = λ c. elim c [ vault_cell v ↦ some v | _ ↦ none ];
    content-cell = λ x. refl;
  }

  abbrev pub spec_kept : Kept (Cell M L X) (SpecOf Addr Addr)
  spec_kept = record {
    cell = spec_cell;
    content = λ c. elim c [ spec_cell s ↦ some s | _ ↦ none ];
    content-cell = λ x. refl;
  }

  abbrev pub status_kept : Kept (Cell M L X) GithubAppStatus
  status_kept = record {
    cell = status_cell;
    content = λ c. elim c [ status_cell s ↦ some s | _ ↦ none ];
    content-cell = λ x. refl;
  }

  abbrev pub app_kept : Kept (Cell M L X) (AppOf M (SpecOf Addr Addr))
  app_kept = record {
    cell = app_cell;
    content = λ c. elim c [ app_cell a ↦ some a | _ ↦ none ];
    content-cell = λ x. refl;
  }

  abbrev pub items_kept : Kept (Cell M L X) (List (AppOf M (SpecOf Addr Addr)))
  items_kept = record {
    cell = items_cell;
    content = λ c. elim c [ items_cell i ↦ some i | _ ↦ none ];
    content-cell = λ x. refl;
  }

  abbrev pub list_kept : Kept (Cell M L X) (GithubAppListOf L Addr)
  list_kept = record {
    cell = list_cell;
    content = λ c. elim c [ list_cell l ↦ some l | _ ↦ none ];
    content-cell = λ x. refl;
  }
