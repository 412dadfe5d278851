-- ===== src/Controller/Expiry/Contents.antt =====
-- What checkExpiryAndUpdateAccessToken of internal/controller/githubapp_controller.go may find in an
-- access token secret.
use github_app_operator.Base.{
  String, ◌≡◌, refl, ap, ◌≢◌, ◌⊎◌, inl, inr, true, false, Option, none, some, [], ◌∷◌, All, Map,
  lookup, arith, eq_iff, str_eq, Bool-cases,
}
use github_app_operator.Api.Types.{Bytes}
use github_app_operator.Controller.Expiry.{has_invalid_key, value_or_empty}

-- A secret holds no key but the two of an access token.
abbrev pub HoldsOnlyToken : Map Bytes → Type 0
HoldsOnlyToken = All (λ (key, v). (key ≡ "token") ⊎ (key ≡ "username"))

pub has_invalid_key-false : (m : Map Bytes) → has_invalid_key m ≡ false → HoldsOnlyToken m
unfolding has_invalid_key
has_invalid_key-false [] h = tt
has_invalid_key-false ((key, v) ∷ m) h = (
  ground (arith, eq_iff key "token", eq_iff key "username"),
  has_invalid_key-false m (ground arith),
)

pub has_invalid_key-true : (m : Map Bytes) → has_invalid_key m ≡ true → ¬ HoldsOnlyToken m
unfolding has_invalid_key
has_invalid_key-true [] h own = cc
has_invalid_key-true ((key, v) ∷ m) h (own, rest) =
    has_invalid_key-true m (ground (arith, own, eq_iff key "token", eq_iff key "username")) rest

-- The secret has the token, and it is not empty.
abbrev pub HasToken : Map Bytes → String → Type 0
HasToken m token = (lookup "token" m ≡ some token) × (token ≢ "")

-- The secret has no key for the token, or an empty token.
abbrev pub LacksToken : Map Bytes → Type 0
LacksToken m = (lookup "token" m ≡ none) ⊎ (lookup "token" m ≡ some "")

pub token_cases :
    (o : Option Bytes)
    → ((o ≡ some (value_or_empty o)) × (value_or_empty o ≢ "")) ⊎ ((o ≡ none) ⊎ (o ≡ some ""))
token_cases none = inr (inl refl)
token_cases (some v) = elim (Bool-cases (str_eq v "")) [
  | inl e ↦ let same : v ≡ "" = ground (arith, eq_iff v "") in inr (inr (ap some same))
  | inr n ↦ inl (refl, ground (arith, eq_iff v ""))
]

-- Of a secret that lacks a token, an empty one is read.
pub LacksToken-read : (m : Map Bytes) → LacksToken m → value_or_empty (lookup "token" m) ≡ ""
LacksToken-read m (inl none_there) = ap value_or_empty none_there
LacksToken-read m (inr empty_there) = ap value_or_empty empty_there
