-- ===== src/HeapDump/Main.antt =====
-- hw6-jli230-main/C/main.c: `find_freelist`, and the demonstration in `main`, which allocates and frees
-- chunks and prints the heap or a free list in between.
-- The allocator of the C library is a parameter. Its operations pass on a state of the heap, of which the
-- words in memory and the end are known, and so is which blocks are in use. What the program does is a
-- list of calls. `main` is cut into the parts between its messages.
pub mod Uses
pub mod Loops
pub mod Misuse
pub mod Whole
use Prim.Native.String.{String}
use cs361_projects.Prelude.{ℕ, zero, suc, ◌+◌, ◌%◌, ◌≡◌, List, [], ◌∷◌, ◌++◌}
use cs361_projects.Prelude.Links.{update, erase, Distinct, ◌∈◌, ◌∉◌}
use cs361_projects.HeapDump.{Memory, word_mod, Printed, Run, print_heap, print_freelist}

-- `malloc`, `free`, `malloc_trim` and the heap behind them, with what is documented of them: a block
-- that is handed out is none of those in use, and is in use until it is freed. `fill` is `memset`.
pub record Allocator : Type 1 where
  pub Heap : Type 0
  pub memory : Heap → Memory
  pub top : Heap → ℕ
  pub live : Heap → List ℕ
  pub malloc : ℕ → Heap → ℕ × Heap
  pub free : ℕ → Heap → Heap
  pub trim : Heap → Heap
  pub fill : (p byte count : ℕ) → Heap → Heap
  pub live-Distinct : (h : Heap) → Distinct (live h)
  pub malloc_fresh : (n : ℕ) (h : Heap) → (malloc n h).0 ∉ live h
  pub live-malloc : (n : ℕ) (h : Heap) → live (malloc n h).1 ≡ (malloc n h).0 ∷ live h
  pub live-free : (p : ℕ) (h : Heap) → p ∈ live h → live (free p h) ≡ erase p (live h)
  pub live-trim : (h : Heap) → live (trim h) ≡ live h
  pub live-fill : (p byte count : ℕ) (h : Heap) → p ∈ live h → live (fill p byte count h) ≡ live h

-- What the program calls, with what the allocator gives or the printing shows.
pub data Call : Type 0 where
  puts : String → Call
  allocates : (size p : ℕ) → Call
  releases reads : ℕ → Call
  fills : (p byte count : ℕ) → Call
  trims : Call
  shows_pointer : ℕ → Call
  shows : Run (List Printed) → Call

-- The values of `i` in `for(int i=0;i<10;i+=2)`, and in the same loop from 1.
abbrev pub evens : List ℕ
evens = 0 ∷ 2 ∷ 4 ∷ 6 ∷ 8 ∷ []

abbrev pub odds : List ℕ
odds = 1 ∷ 3 ∷ 5 ∷ 7 ∷ 9 ∷ []

module _ (a : Allocator) where
  -- A program: its value, the heap that it leaves, and its calls.
  abbrev pub M : Type 0 → Type 0
  M A = a.Heap → A × a.Heap × List Call

  infixl 5 ◌>>=◌ ◌>>◌
  abbrev pub ◌>>=◌ : {A B : Type 0} → M A → (A → M B) → M B
  ◌>>=◌ m f h = let r = m h in let q = f r.0 r.1 in (q.0, q.1, r.2 ++ q.2)

  abbrev pub ◌>>◌ : {B : Type 0} → M (Unit {0}) → M B → M B
  ◌>>◌ m k = m >>= λ _. k

  abbrev pub return : {A : Type 0} → A → M A
  return x h = (x, h, [])

  unfoldable pub say : String → M (Unit {0})
  say s h = (tt, h, puts s ∷ [])

  unfoldable pub alloc : ℕ → M ℕ
  alloc n h = let r = a.malloc n h in (r.0, r.1, allocates n r.0 ∷ [])

  unfoldable pub release : ℕ → M (Unit {0})
  release p h = (tt, a.free p h, releases p ∷ [])

  unfoldable pub malloc_trim : M (Unit {0})
  malloc_trim h = (tt, a.trim h, trims ∷ [])

  unfoldable pub memset : (p byte count : ℕ) → M (Unit {0})
  memset p byte count h = (tt, a.fill p byte count h, fills p byte count ∷ [])

  -- `*((void**)ptr)`
  unfoldable pub read : ℕ → M ℕ
  read p h = (a.memory h p, h, reads p ∷ [])

  unfoldable pub show_pointer : ℕ → M (Unit {0})
  show_pointer p h = (tt, h, shows_pointer p ∷ [])

  module _ (k : ℕ) where
    -- `print_heap(stdout, bottom)`, with fuel `k`.
    unfoldable pub show_heap : ℕ → M (Unit {0})
    show_heap bottom h = (tt, h, shows (print_heap k (a.memory h) (a.top h) bottom) ∷ [])

    unfoldable pub show_freelist : ℕ → M (Unit {0})
    show_freelist hdr h = (tt, h, shows (print_freelist k (a.memory h) (a.top h) hdr) ∷ [])

    -- `for(int i=…;…;i++) { chunks[i]=malloc(200); … }`, with `n` rounds left at `i`.
    unfoldable pub malloc_each : ℕ → ℕ → (ℕ → M (Unit {0})) → (ℕ → ℕ) → M (ℕ → ℕ)
    malloc_each zero i then_do chunks = return chunks
    malloc_each (suc n) i then_do chunks = do
      p ← alloc 200
      then_do p
      malloc_each n (i + 1) then_do (update chunks i p)

    -- `for(…) { free(chunks[i]); … }`, over the values that `i` takes.
    unfoldable pub free_each : List ℕ → M (Unit {0}) → (ℕ → ℕ) → M (Unit {0})
    free_each [] then_do chunks = return tt
    free_each (i ∷ is) then_do chunks = do release (chunks i); then_do; free_each is then_do chunks

    unfoldable pub find_freelist : ℕ → M ℕ
    find_freelist size = do
      ptr ← alloc size
      ptr2 ← alloc size
      release ptr
      link ← read ptr
      let hdr = (link + 16) % word_mod
      show_pointer hdr
      release ptr2
      return hdr

    -- A chunk at the bottom, and `malloc_trim`.
    unfoldable pub lay_bottom : M ℕ
    lay_bottom = do
      say "Allocating a chunk to serve as the bottom of our heap.\n"
      bottom ← alloc 1000
      show_heap bottom
      say "\nCalling malloc_trim(0)\n"
      malloc_trim
      show_heap bottom
      return bottom

    -- Chunks that are freed in reverse order.
    unfoldable pub free_in_reverse : ℕ → (ℕ → ℕ) → M (ℕ → ℕ)
    free_in_reverse bottom chunks₀ = do
      say "\nMallocing some chunks\n"
      chunks ← malloc_each 5 0 (λ _. show_heap bottom) chunks₀
      say "\nNow freeing them in reverse order\n"
      free_each (4 ∷ 3 ∷ 2 ∷ 1 ∷ 0 ∷ []) (show_heap bottom) chunks
      return chunks

    -- Chunks that are freed in the order in which they were allocated.
    unfoldable pub free_in_order : ℕ → (ℕ → ℕ) → M (ℕ → ℕ)
    free_in_order bottom chunks₀ = do
      say "\nMallocing some chunks again... \n"
      chunks ← malloc_each 5 0 (λ _. return tt) chunks₀
      say "but now freeing them in the same order. Notice the difference.\n"
      free_each (0 ∷ 1 ∷ 2 ∷ 3 ∷ 4 ∷ []) (show_heap bottom) chunks
      say "\nCalling malloc_trim(0)\n"
      malloc_trim
      show_heap bottom
      return chunks

    -- A free list of every second chunk, and then the rest.
    unfoldable pub build_freelist : (ℕ → ℕ) → M ((ℕ → ℕ) × ℕ)
    build_freelist chunks₀ = do
      chunks ← malloc_each 10 0 (λ p. memset p 255 200) chunks₀
      hdr ← find_freelist 200
      say "\nBuilding a freelist of 200 byte chunks\n"
      free_each evens (show_freelist hdr) chunks
      say "Freeing the rest\n"
      free_each odds (show_freelist hdr) chunks
      return (chunks, hdr)

    -- Another one, and a single `malloc` behind it.
    unfoldable pub build_another : ℕ → (ℕ → ℕ) → M (Unit {0})
    build_another hdr chunks₀ = do
      say "Building another freelist of 200 byte chunks\n"
      chunks ← malloc_each 10 0 (λ p. memset p 255 200) chunks₀
      free_each evens (show_freelist hdr) chunks
      say "\nBut one single malloc, and the freelist looks like this:\n"
      _ ← alloc 1000
      say
          "\nIt's empty! Can you explain why? (hint: have a closer look at what happened when 'freeing the rest' above)"
      show_freelist hdr

    -- `chunks₀` is what the array holds before it is written.
    unfoldable pub main : (ℕ → ℕ) → M (Unit {0})
    main chunks₀ = do
      bottom ← lay_bottom
      chunks₁ ← free_in_reverse bottom chunks₀
      chunks₂ ← free_in_order bottom chunks₁
      built ← build_freelist chunks₂
      build_another built.1 built.0
