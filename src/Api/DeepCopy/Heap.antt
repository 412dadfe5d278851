-- ===== src/Api/DeepCopy/Heap.antt =====
-- The heap that the deep copies of api/v1/zz_generated.deepcopy.go read and allocate on.
use github_app_operator.Base.{
  ℕ, ◌+◌, ◌≤◌, ◌<◌, ◌≡◌, ◌∙◌, Option, none, some, arith, ltb, ◌==◌, if◌then◌else◌,
}

-- An address, as a non-nil pointer, map or slice has it.
abbrev pub Addr : Type 0
Addr = ℕ

module _ (Cell : Type 0) where
  -- The cells below `next` are allocated.
  pub record Heap : Type 0 where
    pub next : ℕ
    pub cell : ℕ → Cell

  -- `none` is a fault: the use of an address at which nothing of the type is allocated.
  abbrev pub Heaped : Type 0 → Type 0
  Heaped A = Heap → Option (A × Heap)

module _ {Cell : Type 0} where
  abbrev pub read : Addr → Heap Cell → Option Cell
  read p h = if ltb p h.next then some (h.cell p) else none

  abbrev pub update : (ℕ → Cell) → ℕ → Cell → ℕ → Cell
  update f p c q = if p == q then c else f q

  -- The heap after an allocation of c.
  abbrev pub grown : Cell → Heap Cell → Heap Cell
  grown c h = record { next = h.next + 1; cell = update h.cell h.next c }

  unfoldable pub new : Cell → Heaped Cell Addr
  new c h = some (h.next, grown c h)

  -- The heap after c was written to an address.
  abbrev pub written : Addr → Cell → Heap Cell → Heap Cell
  written p c h = record h { cell = update h.cell p c }

  unfoldable pub store : Addr → Cell → Heaped Cell (Unit {0})
  store p c h = if ltb p h.next then some (tt, written p c h) else none

  -- k has what h has at the addresses from lo up to hi.
  abbrev pub Agree : ℕ → ℕ → Heap Cell → Heap Cell → Type 0
  Agree lo hi h k = (p : Addr) → lo ≤ p → p < hi → read p k ≡ read p h

  module _ {A : Type 0} where
    unfoldable pub pure : A → Heaped Cell A
    pure a h = some (a, h)

  module _ {A B : Type 0} where
    infixl 10 ◌>>=◌ ◌>>◌
    unfoldable pub ◌>>=◌ : Heaped Cell A → (A → Heaped Cell B) → Heaped Cell B
    ◌>>=◌ m f h = elim (m h) [ none ↦ none | some (a, h') ↦ f a h' ]

    abbrev pub ◌>>◌ : Heaped Cell A → Heaped Cell B → Heaped Cell B
    m >> n = m >>= λ _. n

  pub read-allocated : (p : Addr) {c : Cell} (h : Heap Cell) → read p h ≡ some c → p < h.next
  read-allocated p h e = ground arith

  pub Agree-trans :
      (n m : ℕ) (h k l : Heap Cell) → n ≤ m → Agree 0 n h k → Agree 0 m k l → Agree 0 n h l
  Agree-trans n m h k l le first later p z b = later p z (omega arith) ∙ first p z b

  pub Agree-grown : (c : Cell) (h : Heap Cell) → Agree 0 h.next h (grown c h)
  Agree-grown c h p z b = ground arith

  pub store-allocated :
      (p : Addr) (c : Cell) (h : Heap Cell) → p < h.next → store p c h ≡ some (tt, written p c h)
  unfolding store
  store-allocated p c h b = ground arith

  pub read-written :
      (p : Addr) (c : Cell) (h : Heap Cell) → p < h.next → read p (written p c h) ≡ some c
  read-written p c h b = ground arith

  pub Agree-written-below : (q : Addr) (c : Cell) (h : Heap Cell) → Agree 0 q h (written q c h)
  Agree-written-below q c h p z b = ground arith

  pub Agree-written-above :
      (q n : Addr) (c : Cell) (h : Heap Cell) → Agree (q + 1) n h (written q c h)
  Agree-written-above q n c h p z b = ground arith
