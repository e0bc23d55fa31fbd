-- ===== src/HeapDump/Walk.antt =====
-- `print_heap` of hw6-jli230-main/C/heapdump.c on a heap as malloc lays it out.
use cs361_projects.Prelude.{
  ℕ, zero, suc, ◌+◌, ◌-◌, ◌*◌, ◌%◌, ◌<◌, ◌≤◌, ◌≡◌, refl, Bool, true, false, List, [], ◌∷◌, arith,
  ◌==◌, ltb, length,
}
use cs361_projects.HeapDump.{
  Memory, word_mod, size_at, chunk_size, is_allocated, Printed, print_chunk, ok, out_of_fuel,
  heap_loop, print_heap,
}

-- A chunk: its size in units of eight bytes, and whether it is in use.
pub record Chunk : Type 0 where
  pub units : ℕ
  pub in_use : Bool

abbrev pub bit : Bool → ℕ
bit true = 1
bit false = 0

-- From an address to the end of the heap: chunks that are not empty, each with its size in the header,
-- in whose lowest bit stands whether the chunk before is in use. The bit above is free (malloc sets it
-- for chunks from `mmap`).
abbrev pub Laid : Memory → (top addr : ℕ) → (before : Bool) → List Chunk → Type 0
Laid mem top addr before [] = addr ≡ top
Laid mem top addr before (c ∷ cs) =
    (0 < c.units)
    × (m : Bool) × (mem addr ≡ 8 * c.units + 2 * bit m + bit before)
    × Laid mem top (addr + 8 * c.units) c.in_use cs

-- What is to be seen of the chunks: the last one, which malloc has not given out, is shown as free.
unfoldable pub shown : ℕ → List Chunk → List Printed
shown addr [] = []
shown addr (c ∷ []) = record { allocated = false; size = 8 * c.units; address = addr } ∷ []
shown addr (c ∷ d ∷ cs) =
    record { allocated = c.in_use; size = 8 * c.units; address = addr }
    ∷ shown (addr + 8 * c.units) (d ∷ cs)

Laid-le :
    (mem : Memory) (top addr : ℕ) (before : Bool) (cs : List Chunk)
    → Laid mem top addr before cs
    → addr ≤ top
Laid-le mem top addr before [] h = omega (arith, h)
Laid-le mem top addr before (c ∷ cs) h =
    omega (arith, Laid-le mem top (addr + 8 * c.units) c.in_use cs h.3)

size_at-header :
    (mem : Memory) (addr u : ℕ) (m b : Bool)
    → mem addr ≡ 8 * u + 2 * bit m + bit b
    → size_at mem addr ≡ 8 * u
unfolding size_at
size_at-header mem addr u true true h = omega (arith, h)
size_at-header mem addr u true false h = omega (arith, h)
size_at-header mem addr u false true h = omega (arith, h)
size_at-header mem addr u false false h = omega (arith, h)

chunk_size-header :
    (mem : Memory) (addr u : ℕ) (m b : Bool)
    → mem addr ≡ 8 * u + 2 * bit m + bit b
    → chunk_size mem (addr + 8) ≡ 8 * u
unfolding chunk_size
chunk_size-header mem addr u m b h =
    let here : addr + 8 - 8 ≡ addr = omega arith in rw (here, h) (low m b)
  where
    low : (m b : Bool) → 8 * u + 2 * bit m + bit b - (8 * u + 2 * bit m + bit b) % 8 ≡ 8 * u
    low true true = omega arith
    low true false = omega arith
    low false true = omega arith
    low false false = omega arith

bit-odd : (u : ℕ) (m b : Bool) → ((8 * u + 2 * bit m + bit b) % 2 == 1) ≡ b
bit-odd u true true = ground arith
bit-odd u true false = ground arith
bit-odd u false true = ground arith
bit-odd u false false = ground arith

is_allocated-header :
    (mem : Memory) (addr u v : ℕ) (m b m' b' : Bool)
    → mem addr ≡ 8 * u + 2 * bit m + bit b
    → mem (addr + 8 * u) ≡ 8 * v + 2 * bit m' + bit b'
    → addr + 8 * u < word_mod
    → is_allocated mem (addr + 8) ≡ b'
unfolding is_allocated
is_allocated-header mem addr u v m b m' b' h h' small =
    let next : (addr + 8 + 8 * u - 8) % word_mod ≡ addr + 8 * u = omega arith in
    rw (is_allocated, chunk_size-header mem addr u m b h, next, h') (bit-odd v m' b')

print_chunk-last :
    (mem : Memory) (top addr u : ℕ) (m b : Bool)
    → mem addr ≡ 8 * u + 2 * bit m + bit b
    → addr + 8 * u ≡ top
    → top < word_mod
    → print_chunk mem top (addr + 8) ≡ record { allocated = false; size = 8 * u; address = addr }
unfolding print_chunk
print_chunk-last mem top addr u m b h e small =
    let here : addr + 8 - 8 ≡ addr = omega arith in
    let at_end : ltb ((addr + 8 * u) % word_mod) top ≡ false = ground arith in
    rw (print_chunk, here, size_at-header mem addr u m b h, at_end) refl

print_chunk-inner :
    (mem : Memory) (top addr u v : ℕ) (m b m' b' : Bool)
    → mem addr ≡ 8 * u + 2 * bit m + bit b
    → mem (addr + 8 * u) ≡ 8 * v + 2 * bit m' + bit b'
    → addr + 8 * u < top
    → top < word_mod
    → print_chunk mem top (addr + 8) ≡ record { allocated = b'; size = 8 * u; address = addr }
unfolding print_chunk
print_chunk-inner mem top addr u v m b m' b' h h' inner small =
    let here : addr + 8 - 8 ≡ addr = omega arith in
    let inside : ltb ((addr + 8 * u) % word_mod) top ≡ true = ground arith in
    rw
      (
        print_chunk,
        here,
        size_at-header mem addr u m b h,
        inside,
        is_allocated-header mem addr u v m b m' b' h h' (omega (arith, inner, small)),
      )
      refl

heap_loop-end : (k : ℕ) (mem : Memory) (top : ℕ) → heap_loop (suc k) mem top top ≡ ok []
unfolding heap_loop
heap_loop-end k mem top = let over : ltb top top ≡ false = ground arith in rw (heap_loop, over) refl

heap_loop-round :
    (k : ℕ) (mem : Memory) (top addr u : ℕ) (m b : Bool) (p : Printed) (rest : List Printed)
    → mem addr ≡ 8 * u + 2 * bit m + bit b
    → addr < top
    → addr + 8 * u ≤ top
    → top < word_mod
    → print_chunk mem top (addr + 8) ≡ p
    → heap_loop k mem top (addr + 8 * u) ≡ ok rest
    → heap_loop (suc k) mem top addr ≡ ok (p ∷ rest)
unfolding heap_loop
heap_loop-round k mem top addr u m b p rest h before room small printed done =
    let more : ltb addr top ≡ true = ground arith in
    let next : (addr + 8 * u) % word_mod ≡ addr + 8 * u = omega arith in
    rw (heap_loop, more, size_at-header mem addr u m b h, next, done, printed) refl

heap_loop-shown :
    (k : ℕ) (mem : Memory) (top addr : ℕ) (before : Bool) (cs : List Chunk)
    → Laid mem top addr before cs
    → length cs < k
    → top < word_mod
    → heap_loop k mem top addr ≡ ok (shown addr cs)
unfolding shown
heap_loop-shown zero mem top addr before cs h lt small = elim lt [ ]
heap_loop-shown (suc k) mem top addr before [] h lt small = rw h (heap_loop-end k mem top)
heap_loop-shown (suc k) mem top addr before (c ∷ []) (some_units, m, word, e) lt small =
    heap_loop-round k mem top addr c.units m before _ [] word (omega (arith, e)) (omega (arith, e))
      small (print_chunk-last mem top addr c.units m before word e small)
      (heap_loop-shown k mem top (addr + 8 * c.units) c.in_use [] e (omega arith) small)
heap_loop-shown (suc k) mem top addr before (c ∷ d ∷ cs) (some_units, m, word, rest) lt small =
    let (more_units, m', word', rest') = rest in
    let fits = Laid-le mem top (addr + 8 * c.units + 8 * d.units) d.in_use cs rest' in
    heap_loop-round k mem top addr c.units m before _ (shown (addr + 8 * c.units) (d ∷ cs)) word
      (omega (arith, fits)) (omega (arith, fits)) small
      (print_chunk-inner mem top addr c.units d.units m before m' c.in_use word word'
        (omega (arith, fits)) small)
      (heap_loop-shown k mem top (addr + 8 * c.units) c.in_use (d ∷ cs) rest (omega arith) small)

-- On memory laid out as malloc does it, chunks that are not empty up to the end of the heap,
-- which is below 2 ^ 64, with more fuel than chunks: `print_heap` prints every chunk in order,
-- with its address and its size, as allocated exactly if it is in use and not the last one.
pub print_heap-shown :
    (k : ℕ) (mem : Memory) (top from : ℕ) (before : Bool) (cs : List Chunk)
    → Laid mem top (from - 8) before cs
    → length cs < k
    → top < word_mod
    → print_heap k mem top from ≡ ok (shown (from - 8) cs)
unfolding print_heap
print_heap-shown k mem top from before cs h lt small =
    heap_loop-shown k mem top (from - 8) before cs h lt small

-- When the first header has a size of 0, in a heap that goes on behind it, `print_heap` does
-- not end, whatever the fuel.
print_heap-stuck :
    (k : ℕ) (mem : Memory) (top from : ℕ)
    → mem (from - 8) < 4
    → from - 8 < top
    → top < word_mod
    → print_heap k mem top from ≡ out_of_fuel
unfolding print_heap heap_loop size_at
print_heap-stuck zero mem top from empty inside small = refl
print_heap-stuck (suc k) mem top from empty inside small =
    let more : ltb (from - 8) top ≡ true = ground arith in
    let stay : (from - 8 + (mem (from - 8) - mem (from - 8) % 4)) % word_mod ≡ from - 8 =
      omega arith in
    rw (heap_loop, more, size_at, stay, print_heap-stuck k mem top from empty inside small) refl
