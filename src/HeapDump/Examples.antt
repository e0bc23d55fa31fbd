-- ===== src/HeapDump/Examples.antt =====
-- The theorems on heapdump.c at concrete inputs.
use cs361_projects.Prelude.{
  ℕ, suc, ◌+◌, ◌<◌, List, All, Bool-cases, inl, inr, ◌≡◌, refl, true, false, [], ◌∷◌, arith, ◌==◌,
  if◌then◌else◌,
}
use cs361_projects.HeapDump.{
  Memory, ok, print_heap, size_at, is_allocated, print_chunk, print_freelist,
}
use cs361_projects.HeapDump.Walk.{shown, print_heap-shown}
use cs361_projects.Prelude.Links.{◌∉◌, Distinct, erase, Distinct-erase}
use cs361_projects.HeapDump.Main
use cs361_projects.HeapDump.Main.{Allocator}
use cs361_projects.HeapDump.Main.Uses.{misuses}
use cs361_projects.HeapDump.Main.Whole.{main-misuses}
use cs361_projects.HeapDump.Ring.{print_freelist-Leads}

-- A chunk of 32 bytes in use, a free one of 24 that points to the list at 8, and what is left.
abbrev heap : Memory
heap a =
    if a == 64
    then 33
    else if a == 96
    then 25
    else if a == 120
    then 40
    else if a == 104
    then 992
    else if a == 1008
    then 88
    else 0

print_heap-shown_example :
    print_heap 5 heap 160 72
    ≡ ok (
        record { allocated = true; size = 32; address = 64 }
        ∷ record { allocated = false; size = 24; address = 96 }
        ∷ record { allocated = false; size = 40; address = 120 }
        ∷ [])
unfolding shown
print_heap-shown_example =
    print_heap-shown 5 heap 160 72 true
      (record { units = 4; in_use = true }
        ∷ record { units = 3; in_use = false }
        ∷ record { units = 5; in_use = true }
        ∷ [])
      (omega arith, false, refl, (omega arith, false, refl, (omega arith, false, refl, refl)))
      (omega arith) (omega arith)

print_freelist-Leads_example :
    print_freelist 5 heap 160 1008 ≡ ok (record { allocated = false; size = 24; address = 96 } ∷ [])
unfolding print_chunk size_at is_allocated
print_freelist-Leads_example =
    print_freelist-Leads 5 heap 160 1008 (104 ∷ []) (refl, omega arith, refl) (omega arith)

-- An allocator that never uses an address again: the next address, and the blocks in use below it.
record Bump : Type 0 where
  next : ℕ
  blocks : List ℕ
  apart : Distinct blocks
  below : All (λ p. p < next) blocks

below-fresh : (n : ℕ) (ps : List ℕ) → All (λ p. p < n) ps → n ∉ ps
below-fresh n [] h = refl
below-fresh n (p ∷ ps) h = ground (arith, below-fresh n ps h.1)

below-suc : (n k : ℕ) (ps : List ℕ) → All (λ p. p < n) ps → All (λ p. p < n + suc k) ps
below-suc n k [] h = tt
below-suc n k (p ∷ ps) h = (omega (arith, h.0), below-suc n k ps h.1)

next-grows : (n k : ℕ) → n < n + suc k
next-grows n k = omega arith

below-erase : (n p : ℕ) (ps : List ℕ) → All (λ q. q < n) ps → All (λ q. q < n) (erase p ps)
unfolding erase
below-erase n p [] h = tt
below-erase n p (q ∷ ps) h = elim (Bool-cases (q == p)) [
  | inl same ↦ rw same (h.1)
  | inr other ↦ rw other (h.0, below-erase n p ps h.1)
]

abbrev take_next : ℕ → Bump → Bump
take_next size b = record {
  next = b.next + suc size;
  blocks = b.next ∷ b.blocks;
  apart = (below-fresh b.next b.blocks b.below, b.apart);
  below = (next-grows b.next size, below-suc b.next size b.blocks b.below);
}

abbrev give_back : ℕ → Bump → Bump
give_back p b = record {
  next = b.next;
  blocks = erase p b.blocks;
  apart = Distinct-erase p b.blocks b.apart;
  below = below-erase b.next p b.blocks b.below;
}

abbrev bump : Allocator
bump = record {
  Heap = Bump;
  memory = λ _ _. 0;
  top = λ b. b.next;
  live = λ b. b.blocks;
  malloc = λ size b. (b.next, take_next size b);
  free = give_back;
  trim = λ b. b;
  fill = λ _ _ _ b. b;
  live-Distinct = λ b. b.apart;
  malloc_fresh = λ size b. below-fresh b.next b.blocks b.below;
  live-malloc = λ size b. refl;
  live-free = λ p b on. refl;
  live-trim = λ b. refl;
  live-fill = λ p byte count b on. refl;
}

abbrev nothing_in_use : Bump
nothing_in_use = record { next = 4096; blocks = []; apart = tt; below = tt }

main-misuses_example :
    (p : ℕ) × (misuses (bump.live nothing_in_use) (Main.main bump 9 (λ _. 0) nothing_in_use).2
      ≡ Main.reads p ∷ [])
main-misuses_example = main-misuses bump 9 (λ _. 0) nothing_in_use
