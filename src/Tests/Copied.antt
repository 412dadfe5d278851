-- ===== src/Tests/Copied.antt =====
-- The theorems on the deep copies at a concrete heap.
use github_app_operator.Base.{
  String, ◌≡◌, refl, Option, none, some, [], ◌∷◌, lookup, ◌==◌, if◌then◌else◌,
}
use github_app_operator.Base.Int.{pos}
use github_app_operator.Api.Types.{Time, VaultPrivateKeySpec}
use github_app_operator.Api.DeepCopy.Heap.{Addr, Heap, pure}
use github_app_operator.Api.DeepCopy.Structs.{
  RolloutOf, SpecOf, AppOf, GithubAppListOf, Cell, labels_cell, rollout_cell, spec_cell, app_cell,
  items_cell, list_cell, spec_kept, app_kept, list_kept,
}
use github_app_operator.Api.DeepCopy.Copies.{
  github_app_spec_deep_copy, github_app_deep_copy_object, github_app_list_deep_copy_object,
}
use github_app_operator.Api.DeepCopy.Detached.{Detached-pure, Copying, Independent, Points}
use github_app_operator.Api.DeepCopy.Laws.{Labels, SpecIs, github_app_spec_deep_copy-Independent}
use github_app_operator.Api.DeepCopy.Resources.{
  AppIs, GithubAppListIs, github_app_deep_copy_object-Independent,
  github_app_list_deep_copy_object-Independent,
}

-- The metadata is a name.
abbrev Memory : Type 0
Memory = Heap (Cell String String (Unit {0}))

abbrev spec_by : {R V : Type 0} → Option R → SpecOf R V
spec_by rollout = record {
  app_id = pos 1;
  install_id = pos 2;
  private_key_secret = "key";
  rollout_deployment = rollout;
  vault_private_key = none;
  access_token_secret = "token";
  gcp_private_key_secret = "";
}

abbrev app_by : {S : Type 0} → S → AppOf String S
app_by spec = record {
  type_meta = record { kind = "GithubApp"; api_version = "githubapp.samir.io/v1" };
  meta = "app";
  spec = spec;
  status = record { expires_at = 5000; error = "" };
}

abbrev list_by : {I : Type 0} → I → GithubAppListOf String I
list_by items = record {
  type_meta = record { kind = "GithubAppList"; api_version = "githubapp.samir.io/v1" };
  meta = "apps";
  items = some items;
}

abbrev cell_at : Addr → Cell String String (Unit {0})
cell_at p =
    if p == 0
    then labels_cell (("app", "web") ∷ [])
    else if p == 1
    then rollout_cell (record { labels = some 0 })
    else if p == 2
    then spec_cell (spec_by (some 1))
    else if p == 3
    then app_cell (app_by (spec_by (some 1)))
    else if p == 4
    then items_cell (app_by (spec_by (some 1)) ∷ app_by (spec_by none) ∷ [])
    else list_cell (list_by 4)

abbrev memory : Memory
memory = record { next = 6; cell = cell_at }

abbrev rollout : RolloutOf Labels
rollout = record { labels = some (λ k. lookup k (("app", "web") ∷ [])) }

abbrev spec_value : Option (RolloutOf Labels) → SpecOf (RolloutOf Labels) VaultPrivateKeySpec
spec_value r = spec_by r

abbrev app_value :
    Option (RolloutOf Labels) → AppOf String (SpecOf (RolloutOf Labels) VaultPrivateKeySpec)
app_value r = app_by (spec_value r)

rollout_there : SpecIs (spec_by (some 1)) (spec_value (some rollout)) memory
rollout_there =
    ((record { labels = some 0 }, refl, (("app", "web") ∷ [], refl, λ k. refl)), tt, refl)

spec_there : Points spec_kept SpecIs (some 2) (some (spec_value (some rollout))) memory
spec_there = (spec_by (some 1), refl, rollout_there)

github_app_spec_deep_copy-Independent_example :
    Independent
      (Points spec_kept SpecIs)
      (some 2)
      (some (spec_value (some rollout)))
      memory
      (github_app_spec_deep_copy (some 2) memory)
github_app_spec_deep_copy-Independent_example =
    github_app_spec_deep_copy-Independent (some 2) (some (spec_value (some rollout))) memory
      spec_there

-- A name is copied as it is.
abbrev names : Copying {C = Cell String String (Unit {0})} {S = String} String pure
names = record {
  Denotes = λ x v h. x ≡ v;
  framed = λ x v h k g d. d;
  copies = λ x v h d. Detached-pure x h λ k. d;
}

abbrev same_time : Time → Time
same_time t = t

app_there :
    Points app_kept
      (AppIs pure same_time names (λ t. refl))
      (some 3)
      (some (app_value (some rollout)))
      memory
app_there = (app_by (spec_by (some 1)), refl, (refl, rollout_there, refl, refl))

github_app_deep_copy_object-Independent_example :
    Independent
      (Points app_kept (AppIs pure same_time names (λ t. refl)))
      (some 3)
      (some (app_value (some rollout)))
      memory
      (github_app_deep_copy_object pure same_time (some 3) memory)
github_app_deep_copy_object-Independent_example =
    github_app_deep_copy_object-Independent pure same_time names (λ t. refl) (some 3)
      (some (app_value (some rollout))) memory app_there

list_there :
    Points list_kept
      (GithubAppListIs pure same_time names (λ t. refl) pure names)
      (some 5)
      (some (list_by (app_value (some rollout) ∷ app_value none ∷ [])))
      memory
list_there = (
  list_by 4,
  refl,
  (
    refl,
    (
      app_by (spec_by (some 1)) ∷ app_by (spec_by none) ∷ [],
      refl,
      ((refl, rollout_there, refl, refl), ((refl, (tt, tt, refl), refl, refl), tt)),
    ),
    refl,
  ),
)

github_app_list_deep_copy_object-Independent_example :
    Independent
      (Points list_kept (GithubAppListIs pure same_time names (λ t. refl) pure names))
      (some 5)
      (some (list_by (app_value (some rollout) ∷ app_value none ∷ [])))
      memory
      (github_app_list_deep_copy_object pure same_time pure (some 5) memory)
github_app_list_deep_copy_object-Independent_example =
    github_app_list_deep_copy_object-Independent pure same_time names (λ t. refl) pure names
      (some 5) (some (list_by (app_value (some rollout) ∷ app_value none ∷ []))) memory list_there
