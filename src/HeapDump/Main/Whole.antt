-- ===== src/HeapDump/Main/Whole.antt =====
-- The free lists of `main` in hw6-jli230-main/C/main.c, and the whole of it.
use Prim.Native.String.{String}
use mathlib.Core.List.{append-nil}
use cs361_projects.Prelude.{ℕ, ◌<◌, ◌≡◌, sym, ap, ◌∙◌, List, [], ◌∷◌, map, arith, All}
use cs361_projects.Prelude.Links.{◌∈◌, ◌∉◌}
use cs361_projects.HeapDump.Main
use cs361_projects.HeapDump.Main.{Allocator, M, reads, evens, odds}
use cs361_projects.HeapDump.Main.Uses.{
  misuses, Uses, Flow-append, Flow-then, Flow-end, Keeps, heap_of, alloc-Uses, say-Quiet,
  memset-Quiet, show_freelist-Quiet,
}
use cs361_projects.HeapDump.Main.Loops.{malloc_each-Filled, Filled, Drops, free_each-Drops}
use cs361_projects.HeapDump.Main.Misuse.{
  out_of, blocks_apart, owned_at, Quiet-Keeps, kept-All, lay_bottom-Uses, free-Filled,
  free_in_reverse-Uses, free_in_order-Uses, find_freelist-Uses,
}

module _ (a : Allocator) (k : ℕ) where
  -- What is not among the blocks that were freed is still in use.
  left-All :
      (n : ℕ) (chunks chunks' : ℕ → ℕ) (h h' h₁ h₂ : a.Heap) (is js : List ℕ)
      → Filled a n 0 chunks chunks' h h'
      → Drops a h₁ h₂ (map chunks' is)
      → All (λ j. j < n) is
      → All (λ j. (j < n) × (j ∉ is)) js
      → All (λ j. chunks' j ∈ a.live h₁) js
      → All (λ j. chunks' j ∈ a.live h₂) js
  left-All n chunks chunks' h h' h₁ h₂ is [] f d ls ms on = tt
  left-All n chunks chunks' h h' h₁ h₂ is (j ∷ js) f d ls ms on = (
    d (chunks' j) (out_of n chunks' f.apart j is ms.0.0 ls ms.0.1) on.0,
    left-All n chunks chunks' h h' h₁ h₂ is js f d ls ms.1 on.1,
  )

  build_freelist-Uses :
      (chunks : ℕ → ℕ) (h : a.Heap)
      → (p : ℕ) × Uses a (Main.build_freelist a k chunks) h (reads p ∷ [])
  unfolding Main.build_freelist
  build_freelist-Uses chunks h =
      let (uses, f) =
        malloc_each-Filled a k (λ p. Main.memset a p 255 200)
          (λ p h' on. memset-Quiet a p 255 200 h' on) 10 0 chunks h in
      let filling = Main.malloc_each a k 10 0 (λ p. Main.memset a p 255 200) chunks in
      let blocks : ℕ → ℕ = (filling h).0 in
      let h₁ : a.Heap = heap_of a filling h in
      let (found, kept) = find_freelist-Uses a k 200 h₁ in
      let hdr : ℕ = (Main.find_freelist a k 200 h₁).0 in
      let h₂ : a.Heap = heap_of a (Main.find_freelist a k 200) h₁ in
      let building : String = "\nBuilding a freelist of 200 byte chunks\n" in
      let h₃ : a.Heap = heap_of a (Main.say a building) h₂ in
      let keep : Keeps a h₁ h₃ =
        λ q on. Quiet-Keeps a (Main.say a building) h₂ (say-Quiet a building h₂) q (kept q on) in
      let quiet = show_freelist-Quiet a k hdr in
      let (first, left) =
        free-Filled a k (Main.show_freelist a k hdr) quiet 10 chunks blocks h h₁ h₃ evens f keep
          (omega arith) (ground arith) in
      let h₄ : a.Heap =
        heap_of a (Main.free_each a k evens (Main.show_freelist a k hdr) blocks) h₃ in
      let h₅ : a.Heap = heap_of a (Main.say a "Freeing the rest\n") h₄ in
      let rest =
        free_each-Drops a k (Main.show_freelist a k hdr) quiet blocks odds h₅
          (blocks_apart 10 blocks f.apart odds (omega arith) (ground arith))
          (kept-All a blocks h₄ h₅
            (Quiet-Keeps a (Main.say a "Freeing the rest\n") h₄ (say-Quiet a _ h₄)) odds
            (left-All 10 chunks blocks h h₁ h₃ h₄ evens odds f left (omega arith) (ground arith) (
              kept-All a blocks h₁ h₃ keep odds
                (owned_at a 10 chunks blocks h h₁ f odds (omega arith))))) in
      (
        (Main.alloc a 200 h₁).0,
        Flow-append a uses (
            Flow-then a found (
              Flow-append a (say-Quiet a _ _).uses (
                Flow-append a first
                  (Flow-append a (say-Quiet a _ _).uses (Flow-append a rest.0 (Flow-end a)))))),
      )

  build_another-Uses :
      (hdr : ℕ) (chunks : ℕ → ℕ) (h : a.Heap) → Uses a (Main.build_another a k hdr chunks) h []
  unfolding Main.build_another
  build_another-Uses hdr chunks h =
      let h₁ : a.Heap = heap_of a (Main.say a "Building another freelist of 200 byte chunks\n") h in
      let (uses, f) =
        malloc_each-Filled a k (λ p. Main.memset a p 255 200)
          (λ p h' on. memset-Quiet a p 255 200 h' on) 10 0 chunks h₁ in
      Flow-append a (say-Quiet a _ h).uses (
        Flow-append a uses (
          Flow-append a
            (free-Filled a k (Main.show_freelist a k hdr) (show_freelist-Quiet a k hdr) 10 chunks _
              h₁ _ _ evens f (λ q on. on) (omega arith) (ground arith)).0
            (Flow-append a (say-Quiet a _ _).uses (
              Flow-append a (alloc-Uses a 1000 _)
                (Flow-append a (say-Quiet a _ _).uses (show_freelist-Quiet a k hdr _).uses)))))

-- For any allocator that does not run out of memory and hands out only blocks which are not in use, and
-- whatever the array holds before it is written: among what `main` itself allocates, frees, fills and
-- reads, exactly one access is to a block that is not in use, and it is a read. So no block is freed
-- twice, and none is written to after it was freed.
pub main-misuses :
    (a : Allocator) (k : ℕ) (chunks : ℕ → ℕ) (h : a.Heap)
    → (p : ℕ) × (misuses (a.live h) (Main.main a k chunks h).2 ≡ reads p ∷ [])
unfolding Main.main
main-misuses a k chunks h =
    let laid = Main.lay_bottom a k h in
    let chunks₁ = Main.free_in_reverse a k laid.0 chunks laid.1 in
    let chunks₂ = Main.free_in_order a k laid.0 chunks₁.0 chunks₁.1 in
    let built = Main.build_freelist a k chunks₂.0 chunks₂.1 in
    let (p, found) = build_freelist-Uses a k chunks₂.0 chunks₂.1 in
    let all = Flow-append a (lay_bottom-Uses a k h) (
      Flow-append a (free_in_reverse-Uses a k laid.0 chunks laid.1) (
        Flow-append a (free_in_order-Uses a k laid.0 chunks₁.0 chunks₁.1)
          (Flow-then a found (build_another-Uses a k built.0.1 built.0.0 built.1)))) in
    (p, sym (ap (misuses (a.live h)) (append-nil (Main.main a k chunks h).2)) ∙ all.run [])
