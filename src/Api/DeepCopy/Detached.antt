-- ===== src/Api/DeepCopy/Detached.antt =====
-- Copies on a heap for api/v1/zz_generated.deepcopy.go: what it is for one to be independent of
-- its original, through a pointer and part by part.
use mathlib.Core.Option
use github_app_operator.Base.{
  ◌≤◌, ◌<◌, ◌≡◌, refl, sym, ap, ◌∙◌, Option, none, some, inl, inr, Option-cases, arith,
}
use github_app_operator.Api.DeepCopy.Heap.{
  Addr, Heap, Heaped, read, new, Agree, pure, ◌>>=◌, read-allocated, Agree-trans, Agree-grown,
  grown, written, store-allocated, read-written, Agree-written-below, Agree-written-above,
}
use github_app_operator.Api.DeepCopy.Structs.{Kept}
use github_app_operator.Api.DeepCopy.Copies.{load, content_of, fetch, deep_copy}

module _ {C : Type 0} where
  -- The copying does not fault, writes nothing that was there, and leaves something of which P
  -- holds by what it has allocated, whatever becomes of the other cells.
  pub record Detached {A : Type 0} (P : A → Heap C → Type 0) (h : Heap C)
      (out : Option (A × Heap C)) : Type 0 where
    pub copy : A
    pub after : Heap C
    pub runs : out ≡ some (copy, after)
    pub grows : h.next ≤ after.next
    pub keeps : Agree 0 h.next h after
    pub detached : (k : Heap C) → Agree h.next after.next after k → P copy k

  module _ {A : Type 0} {P : A → Heap C → Type 0} where
    pub Detached-pure : (a : A) (h : Heap C) → ((k : Heap C) → P a k) → Detached P h (pure a h)
    unfolding pure
    Detached-pure a h p = record {
      copy = a;
      after = h;
      runs = refl;
      grows = omega arith;
      keeps = λ q z b. refl;
      detached = λ k g. p k;
    }

  module _ {A B : Type 0} {P : A → Heap C → Type 0} {Q : B → Heap C → Type 0} where
    pub Detached-bind :
        (m : Heaped C A) (f : A → Heaped C B) (h : Heap C)
        → Detached P h (m h)
        → ((a : A) (k : Heap C) → Agree 0 h.next h k → Detached (λ b l. P a l → Q b l) k (f a k))
        → Detached Q h ((m >>= f) h)
    unfolding ◌>>=◌
    Detached-bind m f h first next =
        let second = next first.copy first.after first.keeps in
        record {
          copy = second.copy;
          after = second.after;
          runs = rw (◌>>=◌, first.runs, second.runs) refl;
          grows = omega (arith, first.grows, second.grows);
          keeps =
              Agree-trans h.next first.after.next h first.after second.after first.grows first.keeps
                second.keeps;
          detached = λ k g.
              second.detached k (λ q z b. g q (omega (arith, first.grows)) b)
                (first.detached k
                  λ q z b. g q z (omega (arith, second.grows)) ∙ second.keeps q (omega arith) b);
        }

  -- What is denoted by the allocated cells is so on any heap that agrees on them.
  abbrev pub Framed : {S V : Type 0} → (S → V → Heap C → Type 0) → Type 0
  Framed {S} {V} D = (x : S) (v : V) (h k : Heap C) → Agree 0 h.next h k → D x v h → D x v k

  -- The function into copies: it leaves what denotes the same as its argument does, detached from it.
  abbrev pub Copies : {S V : Type 0} → (S → V → Heap C → Type 0) → (S → Heaped C S) → Type 0
  Copies {S} {V} D into =
      (x : S) (v : V) (h : Heap C) → D x v h → Detached (λ y k. D y v k) h (into x h)

  -- What a deep copy of a value promises: it does not fault, and neither of the copy and the
  -- original changes its value by what is then written to the other's cells.
  pub record Independent {S V : Type 0} (D : S → V → Heap C → Type 0) (x : S) (v : V) (h : Heap C)
      (out : Option (S × Heap C)) : Type 0 where
    pub copied : Detached (λ y k. D y v k) h out
    pub original : (k : Heap C) → Agree 0 h.next copied.after k → D x v k

  pub Copies-Independent :
      {S V : Type 0} (D : S → V → Heap C → Type 0) (into : S → Heaped C S)
      → Framed D
      → Copies D into
      → (x : S) (v : V) (h : Heap C) → D x v h
      → Independent D x v h (into x h)
  Copies-Independent D into framed copies x v h d =
      let c = copies x v h d in
      record { copied = c; original = λ k g. framed x v h k (λ q z b. g q z b ∙ c.keeps q z b) d }

  -- What is taken of a function of package metav1 that copies: its values denote something, by
  -- allocated cells only, and it makes detached copies.
  pub record Copying {S : Type 0} (V : Type 0) (into : S → Heaped C S) : Type 1 where
    pub Denotes : S → V → Heap C → Type 0
    pub framed : Framed Denotes
    pub copies : Copies Denotes into

  module _ {S V : Type 0} (kept : Kept C S) (Denotes : S → V → Heap C → Type 0) where
    -- What a pointer denotes: nil denotes none.
    abbrev pub Points : Option Addr → Option V → Heap C → Type 0
    Points none none h = Unit
    Points (some p) (some v) h = (x : S) × (load kept p h ≡ some x) × Denotes x v h
    Points _ _ h = ⊥

    pub Points-framed : Framed Denotes → Framed Points
    Points-framed framed none none h k g d = tt
    Points-framed framed (some p) (some v) h k g (x, e, d) = elim (Option-cases (read p h)) [
      | inl m ↦
          let absurd : none ≡ some x = sym (ap (content_of kept) m) ∙ e in
          elim (Option.none-ne-some _ absurd) [ ]
      | inr (c, m) ↦ (
        x,
        ap (content_of kept) (g p (omega arith) (read-allocated p h m)) ∙ e,
        framed x v h k g d,
      )
    ]
    Points-framed framed none (some v) h k g d = elim d [ ]
    Points-framed framed (some p) none h k g d = elim d [ ]

    load-written :
        (q : Addr) (y : S) (h : Heap C)
        → q < h.next
        → load kept q (written q (kept.cell y) h) ≡ some y
    load-written q y h b =
        ap (content_of kept) (read-written q (kept.cell y) h b) ∙ kept.content-cell y

    fetch-load :
        (p : Addr) (x : S) (h : Heap C) → load kept p h ≡ some x → fetch kept p h ≡ some (x, h)
    unfolding fetch
    fetch-load p x h e = ap (Option.map (λ y. (y, h))) e

    pub deep_copy-Copies :
        Framed Denotes
        → (into : S → Heaped C S) → Copies Denotes into
        → Copies Points (deep_copy kept into)
    unfolding deep_copy ◌>>=◌ new pure
    deep_copy-Copies framed into copies none none h d = Detached-pure none h λ k. tt
    deep_copy-Copies framed into copies (some p) (some v) h (x, e, d) =
        let q = h.next in
        let start = grown (kept.cell x) h in
        let c = copies x v start (framed x v h start (Agree-grown (kept.cell x) h) d) in
        let allocated : q < c.after.next = omega (arith, c.grows) in
        let stored = store-allocated q (kept.cell c.copy) c.after allocated in
        record {
          copy = some q;
          after = written q (kept.cell c.copy) c.after;
          runs = rw (◌>>=◌, fetch-load p x h e, c.runs, stored) refl;
          grows = omega (arith, allocated);
          keeps = λ r z b.
              Agree-written-below q (kept.cell c.copy) c.after r z b
              ∙ c.keeps r z (omega arith)
              ∙ Agree-grown (kept.cell x) h r z b;
          detached = λ k g. (
            c.copy,
            ap (content_of kept) (g q (omega arith) allocated)
                ∙ load-written q c.copy c.after allocated,
            c.detached k λ r z b.
                g r (omega arith) b
                ∙ Agree-written-above q c.after.next (kept.cell c.copy) c.after r z b,
          );
        }
    deep_copy-Copies framed into copies none (some v) h d = elim d [ ]
    deep_copy-Copies framed into copies (some p) none h d = elim d [ ]
