-- ===== src/HeapDump/Main/Misuse.antt =====
-- The parts of `main` in hw6-jli230-main/C/main.c down to `find_freelist`.
use cs361_projects.Prelude.{
  ℕ, ◌+◌, ◌≤◌, ◌<◌, ◌≡◌, refl, ◌∙◌, false, List, [], ◌∷◌, map, arith, ◌==◌, All, ◌%◌,
}
use cs361_projects.Prelude.Links.{Distinct, ◌∈◌, ◌∉◌}
use cs361_projects.HeapDump.Main
use cs361_projects.HeapDump.Main.{Allocator, Call, M, reads}
use cs361_projects.HeapDump.Main.Uses.{
  Uses, Flow-append, Flow-then, Flow-end, read-Uses, Keeps, heap_of, alloc-Uses, alloc-Keeps,
  alloc_lem, release-Uses, has-release, Quiet, say-Quiet, trim-Quiet, show_heap-Quiet,
  show_pointer-Quiet,
}
use cs361_projects.HeapDump.Main.Loops.{Filled, malloc_each-Filled, Drops, free_each-Drops, differ}

-- A block that is not in use and one that is.
unlike : (y x : ℕ) (xs : List ℕ) → x ∈ xs → y ∉ xs → (y == x) ≡ false
unlike y x xs on out = ground (arith, differ x y xs on out)

module _ (n : ℕ) (chunks : ℕ → ℕ)
    (apart : (j l : ℕ) → 0 ≤ j → j < l → l < 0 + n → (chunks j == chunks l) ≡ false) where
  places_differ : (i j : ℕ) → i < n → j < n → (i == j) ≡ false → (chunks i == chunks j) ≡ false
  places_differ i j li lj other = ground (arith, apart i j, apart j i)

  pub out_of :
      (i : ℕ) (is : List ℕ) → i < n → All (λ j. j < n) is → i ∉ is → chunks i ∉ map chunks is
  out_of i [] li ls out = refl
  out_of i (j ∷ is) li ls out = ground (arith, places_differ i j li ls.0, out_of i is li ls.1)

  -- Different places of the array hold different blocks.
  pub blocks_apart : (is : List ℕ) → All (λ j. j < n) is → Distinct is → Distinct (map chunks is)
  blocks_apart [] ls d = tt
  blocks_apart (i ∷ is) ls d = (out_of i is ls.0 ls.1 d.0, blocks_apart is ls.1 d.1)

module _ (a : Allocator) where
  pub owned_at :
      (n : ℕ) (chunks chunks' : ℕ → ℕ) (h h' : a.Heap)
      → Filled a n 0 chunks chunks' h h'
      → (is : List ℕ) → All (λ j. j < n) is
      → All (λ j. chunks' j ∈ a.live h') is
  owned_at n chunks chunks' h h' f [] ls = tt
  owned_at n chunks chunks' h h' f (i ∷ is) ls =
      (f.owned i (omega arith) (omega arith), owned_at n chunks chunks' h h' f is ls.1)

  pub Quiet-Keeps : (m : M a (Unit {0})) (h : a.Heap) → Quiet a m h → Keeps a h (heap_of a m h)
  Quiet-Keeps m h q p on = rw q.same on

  pub kept-All :
      (chunks : ℕ → ℕ) (h h' : a.Heap)
      → Keeps a h h'
      → (is : List ℕ) → All (λ j. chunks j ∈ a.live h) is
      → All (λ j. chunks j ∈ a.live h') is
  kept-All chunks h h' keep [] on = tt
  kept-All chunks h h' keep (i ∷ is) on = (keep (chunks i) on.0, kept-All chunks h h' keep is on.1)

  survives :
      (p q : ℕ) (h : a.Heap)
      → p ∈ a.live h
      → (q == p) ≡ false
      → q ∈ a.live h
      → q ∈ a.live (heap_of a (Main.release a p) h)
  survives p q h on other here = rw (has-release a q p h on, other) here

  live-read : (p : ℕ) (h : a.Heap) → a.live (heap_of a (Main.read a p) h) ≡ a.live h
  unfolding Main.read
  live-read p h = refl

  module _ (k : ℕ) where
    pub lay_bottom-Uses : (h : a.Heap) → Uses a (Main.lay_bottom a k) h []
    unfolding Main.lay_bottom
    lay_bottom-Uses h = Flow-append a (say-Quiet a _ h).uses (
        Flow-append a (alloc-Uses a 1000 _) (
          Flow-append a (show_heap-Quiet a k _ _).uses (
            Flow-append a (say-Quiet a _ _).uses (
              Flow-append a (trim-Quiet a _).uses
                (Flow-append a (show_heap-Quiet a k _ _).uses (Flow-end a))))))

    -- Chunks that a loop has allocated are freed, behind steps that leave them in use.
    module _ (then_do : M a (Unit {0})) (quiet : (h : a.Heap) → Quiet a then_do h) where
      pub free-Filled :
          (n : ℕ) (chunks chunks' : ℕ → ℕ) (h h' h'' : a.Heap) (is : List ℕ)
          → Filled a n 0 chunks chunks' h h'
          → Keeps a h' h''
          → All (λ j. j < n) is
          → Distinct is
          → Uses a (Main.free_each a k is then_do chunks') h'' []
            × Drops a h'' (heap_of a (Main.free_each a k is then_do chunks') h'') (map chunks' is)
      free-Filled n chunks chunks' h h' h'' is f keep ls d =
          free_each-Drops a k then_do quiet chunks' is h'' (blocks_apart n chunks' f.apart is ls d)
            (kept-All chunks' h' h'' keep is (owned_at n chunks chunks' h h' f is ls))

    pub free_in_reverse-Uses :
        (bottom : ℕ) (chunks : ℕ → ℕ) (h : a.Heap)
        → Uses a (Main.free_in_reverse a k bottom chunks) h []
    unfolding Main.free_in_reverse
    free_in_reverse-Uses bottom chunks h =
        let h₁ : a.Heap = heap_of a (Main.say a "\nMallocing some chunks\n") h in
        let (uses, f) =
          malloc_each-Filled a k (λ _. Main.show_heap a k bottom)
            (λ _ h' _. show_heap-Quiet a k bottom h') 5 0 chunks h₁ in
        Flow-append a (say-Quiet a _ h).uses (
          Flow-append a uses (
            Flow-append a (say-Quiet a _ _).uses (
              Flow-append a
                (free-Filled (Main.show_heap a k bottom) (show_heap-Quiet a k bottom) 5 chunks _ h₁
                  _ _ (4 ∷ 3 ∷ 2 ∷ 1 ∷ 0 ∷ []) f (Quiet-Keeps _ _ (say-Quiet a _ _)) (omega arith)
                  (ground arith)).0
                (Flow-end a))))

    pub free_in_order-Uses :
        (bottom : ℕ) (chunks : ℕ → ℕ) (h : a.Heap)
        → Uses a (Main.free_in_order a k bottom chunks) h []
    unfolding Main.free_in_order
    free_in_order-Uses bottom chunks h =
        let h₁ : a.Heap = heap_of a (Main.say a "\nMallocing some chunks again... \n") h in
        let (uses, f) =
          malloc_each-Filled a k (λ _. Main.return a tt)
            (λ _ h' _. record { uses = Flow-end a; same = refl }) 5 0 chunks h₁ in
        Flow-append a (say-Quiet a _ h).uses (
          Flow-append a uses (
            Flow-append a (say-Quiet a _ _).uses (
              Flow-append a
                (free-Filled (Main.show_heap a k bottom) (show_heap-Quiet a k bottom) 5 chunks _ h₁
                  _ _ (0 ∷ 1 ∷ 2 ∷ 3 ∷ 4 ∷ []) f (Quiet-Keeps _ _ (say-Quiet a _ _)) (omega arith)
                  (ground arith)).0
                (Flow-append a (say-Quiet a _ _).uses (
                  Flow-append a (trim-Quiet a _).uses
                    (Flow-append a (show_heap-Quiet a k _ _).uses (Flow-end a)))))))

    pub find_freelist-Uses :
        (size : ℕ) (h : a.Heap)
        → Uses a (Main.find_freelist a k size) h (reads (Main.alloc a size h).0 ∷ [])
          × Keeps a h (heap_of a (Main.find_freelist a k size) h)
    unfolding Main.find_freelist
    find_freelist-Uses size h =
        let p : ℕ = (Main.alloc a size h).0 in
        let h₁ : a.Heap = heap_of a (Main.alloc a size) h in
        let (out, on) = alloc_lem a size h in
        let q : ℕ = (Main.alloc a size h₁).0 in
        let h₂ : a.Heap = heap_of a (Main.alloc a size) h₁ in
        let (out', on') = alloc_lem a size h₁ in
        let here : p ∈ a.live h₂ = alloc-Keeps a size h₁ p on in
        let h₃ : a.Heap = heap_of a (Main.release a p) h₂ in
        let gone : p ∉ a.live h₃ = has-release a p p h₂ here ∙ ground arith in
        let hdr : ℕ = ((Main.read a p h₃).0 + 16) % Main.word_mod in
        let h₅ : a.Heap = heap_of a (Main.show_pointer a hdr) (heap_of a (Main.read a p) h₃) in
        let peeked : Keeps a h₃ h₅ = λ r r_on.
          Quiet-Keeps (Main.show_pointer a hdr) _ (show_pointer-Quiet a hdr _) r
            (rw (live-read p h₃) r_on) in
        let ours : q ∈ a.live h₅ =
          peeked q (survives p q h₂ here (unlike q p (a.live h₁) on out') on') in
        (
          Flow-append a (alloc-Uses a size h) (
              Flow-append a (alloc-Uses a size h₁) (
                Flow-append a (release-Uses a p h₂ here) (
                  Flow-then a (read-Uses a p h₃ gone) (
                    Flow-append a (show_pointer-Quiet a hdr _).uses
                      (Flow-append a (release-Uses a q h₅ ours) (Flow-end a)))))),
          λ r r_on.
              survives q r h₅ ours (differ r q (a.live h₁) (alloc-Keeps a size h r r_on) out') (
                peeked r (
                  survives p r h₂ here (differ r p (a.live h) r_on out)
                    (alloc-Keeps a size h₁ r (alloc-Keeps a size h r r_on)))),
        )
