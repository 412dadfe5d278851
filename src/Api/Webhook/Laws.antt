-- ===== src/Api/Webhook/Laws.antt =====
-- What the webhook of api/v1/githubapp_webhook.go admits.
use github_app_operator.Base.{
  ◌≡◌, refl, ◌↔◌, ◌⊎◌, inl, inr, none, some, arith, str_eq, eq_iff, Bool-cases, Option-cases,
}
use github_app_operator.Api.Types.{GithubApp}
use github_app_operator.Api.Webhook.{
  validate_github_app_spec, validate_create, validate_update, one_source_message, KeySource,
  from_gcp, from_kubernetes, from_vault,
}

module _ (r : GithubApp) where
  open r.spec use {gcp_private_key_secret as gcp, private_key_secret as kubernetes}

  validate_source : validate_github_app_spec r ≡ none → KeySource r.spec
  unfolding validate_github_app_spec
  validate_source h = elim (Option-cases r.spec.vault_private_key) [
    | inl no_vault ↦ elim (Bool-cases (str_eq gcp "")) [
      | inl g ↦
          from_kubernetes ((eq_iff gcp "").0 g) (ground (arith, eq_iff kubernetes "")) no_vault
      | inr g ↦
          from_gcp (ground (arith, eq_iff gcp "")) (ground (arith, eq_iff kubernetes "")) no_vault
    ]
    | inr (v, e) ↦
        from_vault (ground (arith, eq_iff gcp "")) (ground (arith, eq_iff kubernetes ""))
          (ground arith)
  ]

  source_validates : KeySource r.spec → validate_github_app_spec r ≡ none
  unfolding validate_github_app_spec
  source_validates (from_gcp g k v) = ground (arith, eq_iff gcp "", eq_iff kubernetes "")
  source_validates (from_kubernetes g k v) = ground (arith, eq_iff gcp "", eq_iff kubernetes "")
  source_validates (from_vault g k v) = ground (arith, eq_iff gcp "", eq_iff kubernetes "")

  -- A GithubApp is created exactly when it names one source of its private key and no other, and
  -- an update is judged by the new object alone; every refusal has the same message.
  pub validate_create-KeySource :
      (old : GithubApp)
      → ((validate_create r ≡ none) ↔ KeySource r.spec)
        × (validate_update old r ≡ validate_create r)
        × ((validate_create r ≡ none) ⊎ (validate_create r ≡ some one_source_message))
  unfolding validate_create validate_update validate_github_app_spec
  validate_create-KeySource old = (
    ((λ h. validate_source (ground arith)), (λ k. ground (arith, source_validates k))),
    refl,
    ground arith,
  )
