-- ===== src/Api/DeepCopy/Resources.antt =====
-- The deep copies of GithubApp and GithubAppList in api/v1/zz_generated.deepcopy.go.
use github_app_operator.Base.{◌≡◌, Option, none, some, List, [], ◌∷◌}
use github_app_operator.Api.Types.{Time, VaultPrivateKeySpec}
use github_app_operator.Api.DeepCopy.Heap.{Addr, Heap, Heaped}
use github_app_operator.Api.DeepCopy.Structs.{
  RolloutOf, SpecOf, AppOf, GithubAppListOf, Cell, app_kept, items_kept, list_kept, Kept,
}
use github_app_operator.Api.DeepCopy.Copies.{
  as_runtime_object, deep_copy_object, github_app_status_into, github_app_into, copy_items,
  github_app_list_into, github_app_deep_copy_object, github_app_list_deep_copy_object,
}
use github_app_operator.Api.DeepCopy.Detached.{
  Detached, Detached-pure, Detached-bind, Framed, Copies, Copying, Independent, Copies-Independent,
  Points, Points-framed, deep_copy-Copies,
}
use github_app_operator.Api.DeepCopy.Laws.{
  Labels, SpecIs, SpecIs-Framed, github_app_spec_into-Copies,
}

as_runtime_object-Detached :
    {C V : Type 0} (P : Option Addr → Option V → Heap C → Type 0) (q : Option Addr) (v : Option V)
    (k : Heap C)
    → Detached (λ r l. P q v l → P r v l) k (as_runtime_object q k)
as_runtime_object-Detached P none v k = Detached-pure none k λ l d. d
as_runtime_object-Detached P (some q) v k = Detached-pure (some q) k λ l d. d

deep_copy_object-Copies :
    {C S V : Type 0} (kept : Kept C S) (Denotes : S → V → Heap C → Type 0)
    → Framed Denotes
    → (into : S → Heaped C S) → Copies Denotes into
    → Copies (Points kept Denotes) (deep_copy_object kept into)
unfolding deep_copy_object
deep_copy_object-Copies kept Denotes framed into copies p v h d =
    Detached-bind _ _ h (deep_copy-Copies kept Denotes framed into copies p v h d)
      λ q k g. as_runtime_object-Detached (Points kept Denotes) q v k

module _ {M L X MetaView : Type 0} (copy_meta : M → Heaped (Cell M L X) M) (copy_time : Time → Time)
    (metas : Copying MetaView copy_meta) (same_time : (t : Time) → copy_time t ≡ t) where
  abbrev SpecView : Type 0
  SpecView = SpecOf (RolloutOf Labels) VaultPrivateKeySpec

  -- The resource in memory is the resource v, with its pointers followed.
  abbrev pub AppIs :
      AppOf M (SpecOf Addr Addr) → AppOf MetaView SpecView → Heap (Cell M L X) → Type 0
  AppIs x v h =
      metas.Denotes x.meta v.meta h
      × SpecIs x.spec v.spec h
      × (x.type_meta ≡ v.type_meta)
      × (x.status ≡ v.status)

  abbrev ItemsAre :
      List (AppOf M (SpecOf Addr Addr))
      → List (AppOf MetaView SpecView)
      → Heap (Cell M L X)
      → Type 0
  ItemsAre [] [] h = Unit
  ItemsAre (x ∷ xs) (v ∷ vs) h = AppIs x v h × ItemsAre xs vs h
  ItemsAre _ _ h = ⊥

  AppIs-Framed : Framed AppIs
  AppIs-Framed x v h k g (m, s, e, f) =
      (metas.framed x.meta v.meta h k g m, SpecIs-Framed x.spec v.spec h k g s, e, f)

  ItemsAre-Framed : Framed ItemsAre
  ItemsAre-Framed [] [] h k g d = tt
  ItemsAre-Framed (x ∷ xs) (v ∷ vs) h k g (d, ds) =
      (AppIs-Framed x v h k g d, ItemsAre-Framed xs vs h k g ds)
  ItemsAre-Framed [] (v ∷ vs) h k g d = elim d [ ]
  ItemsAre-Framed (x ∷ xs) [] h k g d = elim d [ ]

  github_app_into-Copies : Copies AppIs (github_app_into copy_meta copy_time)
  unfolding github_app_into github_app_status_into
  github_app_into-Copies x v h (m, s, e, f) =
      Detached-bind _ _ h (metas.copies x.meta v.meta h m) λ meta k g.
        Detached-bind _ _ k
          (github_app_spec_into-Copies x.spec v.spec k (SpecIs-Framed x.spec v.spec h k g s))
          λ spec l g'.
            Detached-bind {P = λ t n. t ≡ v.status} _ _ l
              (Detached-pure _ l λ n. rw (same_time x.status.expires_at) f)
              λ status n g''.
                Detached-pure (record x { meta = meta; spec = spec; status = status }) n
                  λ o t s' m'. (m', s', e, t)

  copy_items-Copies : Copies ItemsAre (copy_items copy_meta copy_time)
  unfolding copy_items
  copy_items-Copies [] [] h d = Detached-pure [] h λ k. tt
  copy_items-Copies (x ∷ xs) (v ∷ vs) h (d, ds) =
      Detached-bind _ _ h (github_app_into-Copies x v h d) λ y k g.
        Detached-bind _ _ k (copy_items-Copies xs vs k (ItemsAre-Framed xs vs h k g ds))
          λ ys l g'. Detached-pure (y ∷ ys) l λ m q p. (p, q)
  copy_items-Copies [] (v ∷ vs) h d = elim d [ ]
  copy_items-Copies (x ∷ xs) [] h d = elim d [ ]

  -- DeepCopyObject of a GithubApp, nil or not, does not fault. What it returns is nil for nil, and
  -- has the original's value; it keeps that value whatever is written to other cells than those it
  -- has allocated, and the original keeps its value whatever is written to those. The metadata's own
  -- copies are taken to do the same.
  pub github_app_deep_copy_object-Independent :
      (p : Option Addr) (v : Option (AppOf MetaView SpecView)) (h : Heap (Cell M L X))
      → Points app_kept AppIs p v h
      → Independent
          (Points app_kept AppIs)
          p
          v
          h
          (github_app_deep_copy_object copy_meta copy_time p h)
  github_app_deep_copy_object-Independent p v h =
      Copies-Independent (Points app_kept AppIs) _ (Points-framed app_kept AppIs AppIs-Framed)
        (deep_copy_object-Copies app_kept AppIs AppIs-Framed _ github_app_into-Copies) p v h

  module _ {ListMetaView : Type 0} (copy_list_meta : L → Heaped (Cell M L X) L)
      (list_metas : Copying ListMetaView copy_list_meta) where
    -- The list in memory is the list v, with its slice and the pointers of its items followed.
    abbrev pub GithubAppListIs :
        GithubAppListOf L Addr
        → GithubAppListOf ListMetaView (List (AppOf MetaView SpecView))
        → Heap (Cell M L X)
        → Type 0
    GithubAppListIs x v h =
        list_metas.Denotes x.meta v.meta h
        × Points items_kept ItemsAre x.items v.items h
        × (x.type_meta ≡ v.type_meta)

    GithubAppListIs-Framed : Framed GithubAppListIs
    GithubAppListIs-Framed x v h k g (m, i, e) = (
      list_metas.framed x.meta v.meta h k g m,
      Points-framed items_kept ItemsAre ItemsAre-Framed x.items v.items h k g i,
      e,
    )

    github_app_list_into-Copies :
        Copies GithubAppListIs (github_app_list_into copy_meta copy_list_meta copy_time)
    unfolding github_app_list_into
    github_app_list_into-Copies x v h (m, i, e) =
        Detached-bind _ _ h (list_metas.copies x.meta v.meta h m) λ meta k g.
          Detached-bind _ _ k
            (deep_copy-Copies items_kept ItemsAre ItemsAre-Framed _ copy_items-Copies x.items
              v.items k (Points-framed items_kept ItemsAre ItemsAre-Framed x.items v.items h k g i))
            λ items l g'.
              Detached-pure (record x { meta = meta; items = items }) l λ n i' m'. (m', i', e)

    -- DeepCopyObject of a GithubAppList, nil or not, with a nil slice or not, does not fault. What it
    -- returns is nil for nil, and has the original's value, item by item; it keeps that value whatever
    -- is written to other cells than those it has allocated, and the original keeps its value
    -- whatever is written to those. The metadata's own copies are taken to do the same.
    pub github_app_list_deep_copy_object-Independent :
        (p : Option Addr)
        (v : Option (GithubAppListOf ListMetaView (List (AppOf MetaView SpecView))))
        (h : Heap (Cell M L X))
        → Points list_kept GithubAppListIs p v h
        → Independent
            (Points list_kept GithubAppListIs)
            p
            v
            h
            (github_app_list_deep_copy_object copy_meta copy_time copy_list_meta p h)
    github_app_list_deep_copy_object-Independent p v h =
        Copies-Independent (Points list_kept GithubAppListIs) _
          (Points-framed list_kept GithubAppListIs GithubAppListIs-Framed)
          (deep_copy_object-Copies list_kept GithubAppListIs GithubAppListIs-Framed _
            github_app_list_into-Copies)
          p v h
