-- ===== src/HeapDump/Main/Loops.antt =====
-- The loops in `main` of hw6-jli230-main/C/main.c: chunks that are allocated, and freed.
use cs361_projects.Prelude.{
  ℕ, zero, suc, ◌+◌, ◌≤◌, ◌<◌, ◌≡◌, refl, ◌∙◌, subst, Bool, false, ◌||◌, List, [], ◌∷◌, map, arith,
  ◌==◌, All, ==_iff, Bool-cases, inl, inr,
}
use cs361_projects.Prelude.Links.{update, update_self, has, Distinct, ◌∈◌, ◌∉◌}
use cs361_projects.HeapDump.Main
use cs361_projects.HeapDump.Main.{Allocator, Call, M, malloc_each, free_each}
use cs361_projects.HeapDump.Main.Uses.{
  Uses, Flow-append, Keeps, Quiet, heap_of, alloc-Uses, alloc-Keeps, alloc_lem, release-Uses,
  has-release,
}

or_parts : (x y : Bool) → (x || y) ≡ false → (x ≡ false) × (y ≡ false)
or_parts x y h = ground arith

pub differ : (x y : ℕ) (xs : List ℕ) → x ∈ xs → y ∉ xs → (x == y) ≡ false
differ x y xs on out = elim (Bool-cases (x == y)) [
  | inl same ↦ let e : x ≡ y = (==_iff x y).0 same in cc
  | inr other ↦ other
]

module _ (a : Allocator) where
  -- What a loop has allocated: blocks in use, of which none was before and no two are the same.
  pub record Filled (n i : ℕ) (chunks chunks' : ℕ → ℕ) (h h' : a.Heap) : Type 0 where
    pub keeps : Keeps a h h'
    pub below : (j : ℕ) → j < i → chunks' j ≡ chunks j
    pub owned : (j : ℕ) → i ≤ j → j < i + n → chunks' j ∈ a.live h'
    pub fresh : (j : ℕ) → i ≤ j → j < i + n → chunks' j ∉ a.live h
    pub apart : (j l : ℕ) → i ≤ j → j < l → l < i + n → (chunks' j == chunks' l) ≡ false

  not_kept : (h h' : a.Heap) (q : ℕ) → Keeps a h h' → q ∉ a.live h' → q ∉ a.live h
  not_kept h h' q keep out = elim (Bool-cases (has q (a.live h))) [
    | inl on ↦ cc (keep q on, out)
    | inr off ↦ off
  ]

  -- The first round, in front of the others.
  Filled-round :
      (n i p : ℕ) (chunks chunks' : ℕ → ℕ) (h h₁ h' : a.Heap)
      → p ∉ a.live h
      → p ∈ a.live h₁
      → Keeps a h h₁
      → Filled n (i + 1) (update chunks i p) chunks' h₁ h'
      → Filled (suc n) i chunks chunks' h h'
  Filled-round n i p chunks chunks' h h₁ h' out on keep f =
      let first : chunks' i ≡ p = f.below i (omega arith) ∙ update_self chunks i p in
      record {
        keeps = λ q here. f.keeps q (keep q here);
        below = λ j lt. ground (arith, f.below j);
        owned = λ j le lt. elim (Bool-cases (i == j)) [
          | inl same ↦
              subst (λ z. chunks' z ∈ a.live h') ((==_iff i j).0 same) (rw first (f.keeps p on))
          | inr other ↦ f.owned j (ground arith) (omega arith)
        ];
        fresh = λ j le lt. elim (Bool-cases (i == j)) [
          | inl same ↦ subst (λ z. chunks' z ∉ a.live h) ((==_iff i j).0 same) (rw first out)
          | inr other ↦ not_kept h h₁ (chunks' j) keep (f.fresh j (ground arith) (omega arith))
        ];
        apart = λ j l le lt lt'. elim (Bool-cases (i == j)) [
          | inl same ↦
              subst (λ z. (chunks' z == chunks' l) ≡ false) ((==_iff i j).0 same)
                (differ (chunks' i) (chunks' l) (a.live h₁) (rw first on)
                  (f.fresh l (ground arith) (omega arith)))
          | inr other ↦ f.apart j l (ground arith) lt (omega arith)
        ];
      }

  module _ (k : ℕ) (then_do : ℕ → M a (Unit {0}))
      (quiet : (p : ℕ) (h : a.Heap) → p ∈ a.live h → Quiet a (then_do p) h) where
    pub malloc_each-Filled :
        (n i : ℕ) (chunks : ℕ → ℕ) (h : a.Heap)
        → Uses a (malloc_each a k n i then_do chunks) h []
          × Filled n i chunks
              (malloc_each a k n i then_do chunks h).0
              h
              (heap_of a (malloc_each a k n i then_do chunks) h)
    unfolding malloc_each
    malloc_each-Filled zero i chunks h = (
      record { run = λ rest. refl },
      record {
        keeps = λ q on. on;
        below = λ j lt. refl;
        owned = λ j le lt. absurd (omega arith);
        fresh = λ j le lt. absurd (omega arith);
        apart = λ j l le lt lt'. absurd (omega arith);
      },
    )
    malloc_each-Filled (suc n) i chunks h =
        let p : ℕ = (Main.alloc a 200 h).0 in
        let h₁ : a.Heap = heap_of a (Main.alloc a 200) h in
        let h₂ : a.Heap = heap_of a (then_do p) h₁ in
        let (out, on) = alloc_lem a 200 h in
        let q = quiet p h₁ on in
        let (uses, filled) = malloc_each-Filled n (i + 1) (update chunks i p) h₂ in
        (
          Flow-append a (alloc-Uses a 200 h) (Flow-append a q.uses uses),
          Filled-round n i p chunks (malloc_each a k n (i + 1) then_do (update chunks i p) h₂).0 h
              h₂ (heap_of a (malloc_each a k n (i + 1) then_do (update chunks i p)) h₂) out
              (rw q.same on) (λ r here. rw q.same (alloc-Keeps a 200 h r here)) filled,
        )

  -- What a loop has freed is no longer in use; the rest is.
  abbrev pub Drops : (h h' : a.Heap) → List ℕ → Type 0
  Drops h h' ps = (q : ℕ) → q ∉ ps → q ∈ a.live h → q ∈ a.live h'

  module _ (k : ℕ) (then_do : M a (Unit {0})) (quiet : (h : a.Heap) → Quiet a then_do h)
      (chunks : ℕ → ℕ) where
    -- A block that is not the one just freed.
    still :
        (p q : ℕ) (h : a.Heap)
        → p ∈ a.live h
        → (q == p) ≡ false
        → q ∈ a.live h
        → q ∈ a.live (heap_of a then_do (heap_of a (Main.release a p) h))
    still p q h on other here =
        rw ((quiet (heap_of a (Main.release a p) h)).same, has-release a q p h on, other) here

    still-All :
        (p : ℕ) (is : List ℕ) (h : a.Heap)
        → p ∈ a.live h
        → p ∉ map chunks is
        → All (λ i. chunks i ∈ a.live h) is
        → All (λ i. chunks i ∈ a.live (heap_of a then_do (heap_of a (Main.release a p) h))) is
    still-All p [] h on out here = tt
    still-All p (i ∷ is) h on out here =
        let (other, rest) = or_parts (p == chunks i) (has p (map chunks is)) out in
        (still p (chunks i) h on (ground arith) here.0, still-All p is h on rest here.1)

    pub free_each-Drops :
        (is : List ℕ) (h : a.Heap)
        → Distinct (map chunks is)
        → All (λ i. chunks i ∈ a.live h) is
        → Uses a (free_each a k is then_do chunks) h []
          × Drops h (heap_of a (free_each a k is then_do chunks) h) (map chunks is)
    unfolding free_each
    free_each-Drops [] h d on = (record { run = λ rest. refl }, λ q out here. here)
    free_each-Drops (i ∷ is) h d on =
        let p : ℕ = chunks i in
        let h₁ : a.Heap = heap_of a (Main.release a p) h in
        let h₂ : a.Heap = heap_of a then_do h₁ in
        let q = quiet h₁ in
        let (uses, drops) = free_each-Drops is h₂ d.1 (still-All p is h on.0 d.0 on.1) in
        (
          Flow-append a (release-Uses a p h on.0) (Flow-append a q.uses uses),
          λ r out here.
              let (other, rest) = or_parts (r == p) (has r (map chunks is)) out in
              drops r rest (still p r h on.0 other here),
        )
