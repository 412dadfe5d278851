-- ===== src/Controller/Owned/Laws.antt =====
-- Which secrets deleteOwnedSecrets deletes, and in which order.
use github_app_operator.Base.{
  String, ◌≡◌, refl, ap, ◌≢◌, inl, inr, Bool, true, false, ◌||◌, none, some, List, [], ◌∷◌, ◌++◌,
  All, arith, eq_iff, Bool-cases, Option-cases, if◌then◌else◌,
}
use github_app_operator.Api.Types.{OwnerReference, Secret}
use github_app_operator.World.{World, Call, Trace, ApiError, api_message}
use github_app_operator.World.Action.{
  Action, State, Result, ok, stop, failed, pure, lift, ◌>>=◌, ◌>>◌,
}
use github_app_operator.World.Calls.{perform}
use github_app_operator.Controller.Owned.{
  names_owner, delete_if_owned, delete_all_owned, delete_one,
}

-- Some owner reference names the GithubApp.
abbrev pub is_owned : String → List OwnerReference → Bool
is_owned app_name [] = false
is_owned app_name (r ∷ refs) = names_owner app_name r || is_owned app_name refs

-- The secrets that name the GithubApp as an owner, in the order of the list.
abbrev pub owned_secrets : String → List Secret → List Secret
owned_secrets app_name [] = []
owned_secrets app_name (x ∷ xs) =
    let rest = owned_secrets app_name xs in
    if is_owned app_name x.meta.owner_references then x ∷ rest else rest

-- The trace after the secrets have been deleted from left to right.
abbrev pub deleting : List Secret → Trace → Trace
deleting [] t = t
deleting (x ∷ xs) t = deleting xs (Call.delete_secret x ∷ t)

abbrev pub at_trace : State → Trace → State
at_trace s t = record s { trace = t }

module _ (W : World) where
  pub delete_if_owned-is_owned :
      (app_name : String) (x : Secret) (refs : List OwnerReference)
      → delete_if_owned W app_name x refs
        ≡ (if is_owned app_name refs then delete_one W x else pure tt)
  unfolding delete_if_owned
  delete_if_owned-is_owned app_name x [] = refl
  delete_if_owned-is_owned app_name x (r ∷ refs) = elim (Bool-cases (names_owner app_name r)) [
    | inl e ↦ rw e
    | inr e ↦ rw e (delete_if_owned-is_owned app_name x refs)
  ]

  -- How a run over the secrets to delete ends: all are deleted, or the first deletion that fails
  -- ends it with its error.
  pub data Deletion (xs : List Secret) (s : State) (out : Result (Unit {0}) × State) : Type 0 where
    all_deleted : out ≡ (ok tt, at_trace s (deleting xs s.trace)) → Deletion xs s out
    stopped_at :
        (before after : List Secret) (x : Secret) (e : ApiError)
        → xs ≡ before ++ (x ∷ after)
        → W.delete_secret (deleting before s.trace) x ≡ some e
        → out ≡ (
          stop (failed (api_message e)),
          at_trace s (Call.delete_secret x ∷ deleting before s.trace),
        )
        → Deletion xs s out

  Deletion-cons :
      (x : Secret) (xs : List Secret) (s : State) {out : Result (Unit {0}) × State}
      → Deletion xs (at_trace s (Call.delete_secret x ∷ s.trace)) out
      → Deletion (x ∷ xs) s out
  Deletion-cons x xs s (all_deleted o) = all_deleted o
  Deletion-cons x xs s (stopped_at before after y e q f o) =
      stopped_at (x ∷ before) after y e (ap (◌∷◌ x) q) f o

  module _ (app_name : String) (x : Secret) (m : Action (Unit {0})) (s : State) where
    abbrev refs : List OwnerReference
    refs = x.meta.owner_references

    skipped : is_owned app_name refs ≡ false → (delete_if_owned W app_name x refs >> m) s ≡ m s
    unfolding ◌>>=◌ pure
    skipped h = rw (delete_if_owned-is_owned app_name x refs, h)

    gone :
        is_owned app_name refs ≡ true
        → W.delete_secret s.trace x ≡ none
        → (delete_if_owned W app_name x refs >> m) s
          ≡ m (at_trace s (Call.delete_secret x ∷ s.trace))
    unfolding ◌>>=◌ delete_one perform lift
    gone h e = rw (delete_if_owned-is_owned app_name x refs, h, e)

    stuck :
        {e : ApiError}
        → is_owned app_name refs ≡ true
        → W.delete_secret s.trace x ≡ some e
        → (delete_if_owned W app_name x refs >> m) s
          ≡ (stop (failed (api_message e)), at_trace s (Call.delete_secret x ∷ s.trace))
    unfolding ◌>>=◌ delete_one perform lift
    stuck h e = rw (delete_if_owned-is_owned app_name x refs, h, e)

  pub delete_all-Deletion :
      (app_name : String) (xs : List Secret) (s : State)
      → Deletion (owned_secrets app_name xs) s (delete_all_owned W app_name xs s)
  unfolding delete_all_owned pure
  delete_all-Deletion app_name [] s = all_deleted refl
  delete_all-Deletion app_name (x ∷ xs) s =
      elim (Bool-cases (is_owned app_name x.meta.owner_references)) [
        | inr h ↦ rw (h, skipped app_name x _ s h) (delete_all-Deletion app_name xs s)
        | inl h ↦ elim (Option-cases (W.delete_secret s.trace x)) [
          | inl e ↦
              rw (h, gone app_name x _ s h e)
                (Deletion-cons x _ s
                  (delete_all-Deletion app_name xs (at_trace s (Call.delete_secret x ∷ s.trace))))
          | inr (e, f) ↦
              rw (h, stuck app_name x _ s h f)
                (stopped_at [] (owned_secrets app_name xs) x e refl f refl)
        ]
      ]

-- No reference to the name: nothing is owned.
pub is_owned-false :
    (app_name : String) (refs : List OwnerReference)
    → All (λ r. r.name ≢ app_name) refs
    → is_owned app_name refs ≡ false
is_owned-false app_name [] h = refl
is_owned-false app_name (r ∷ refs) h =
    ground (arith, is_owned-false app_name refs h.1, eq_iff r.name app_name)
