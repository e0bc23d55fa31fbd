-- ===== src/HeapDump.antt =====
-- hw6-jli230-main/C/heapdump.c: the chunks of glibc's heap, printed by their headers, and a free list,
-- followed by its links.
-- Memory is a function from an address to the word of 64 bits there; every word that is read is taken to
-- be mapped. What is printed for a chunk is a record. The end of the heap, which `sbrk(0)` gives, is an
-- argument.
pub mod Walk
pub mod Ring
pub mod Main
mod Examples
use cs361_projects.Prelude.{
  ℕ, zero, suc, ◌+◌, ◌-◌, ◌%◌, Bool, true, false, List, [], ◌∷◌, ◌==◌, ltb, if◌then◌else◌,
}

abbrev pub Memory : Type 0
Memory = ℕ → ℕ

-- 2 ^ 64
abbrev pub word_mod : ℕ
word_mod = 18446744073709551616

-- `*((uint64_t*)chunk) & ~3l`
unfoldable pub size_at : Memory → ℕ → ℕ
size_at mem chunk = mem chunk - mem chunk % 4

-- `chunk_size` at the address behind the header.
unfoldable pub chunk_size : Memory → ℕ → ℕ
chunk_size mem ptr = let w = mem (ptr - 8) in w - w % 8

-- `is_allocated`: the lowest bit of the header that follows.
unfoldable pub is_allocated : Memory → ℕ → Bool
unfolding chunk_size
is_allocated mem ptr = mem ((ptr + chunk_size mem ptr - 8) % word_mod) % 2 == 1

-- `[A24: 0x…]` or `[F24: 0x…]`
pub record Printed : Type 0 where
  pub allocated : Bool
  pub size : ℕ
  pub address : ℕ

unfoldable pub print_chunk : Memory → (top ptr : ℕ) → Printed
print_chunk mem top ptr =
    let chunk = ptr - 8 in
    let next = (chunk + size_at mem chunk) % word_mod in
    record {
      allocated = if ltb next top then is_allocated mem ptr else false;
      size = size_at mem chunk;
      address = chunk;
    }

pub data Run {ℓ} (A : Type ℓ) : Type ℓ where
  ok : A → Run A
  out_of_fuel : Run A

infixl 5 ◌>>=◌
abbrev pub ◌>>=◌ {ℓ κ} : {A : Type ℓ} {B : Type κ} → Run A → (A → Run B) → Run B
◌>>=◌ (ok a) f = f a
◌>>=◌ out_of_fuel f = out_of_fuel

-- The loop of `print_heap` from a chunk on.
unfoldable pub heap_loop : ℕ → Memory → (top chunk : ℕ) → Run (List Printed)
heap_loop zero mem top chunk = out_of_fuel
heap_loop (suc k) mem top chunk = elim (ltb chunk top) [
  | true ↦ heap_loop k mem top ((chunk + size_at mem chunk) % word_mod) >>= λ rest.
      ok (print_chunk mem top (chunk + 8) ∷ rest)
  | false ↦ ok []
]

unfoldable pub print_heap : ℕ → Memory → (top from : ℕ) → Run (List Printed)
unfolding heap_loop
print_heap k mem top from = heap_loop k mem top (from - 8)

-- The loop of `print_freelist` at `temp`.
unfoldable pub freelist_loop : ℕ → Memory → (top hdr temp : ℕ) → Run (List Printed)
freelist_loop zero mem top hdr temp = out_of_fuel
freelist_loop (suc k) mem top hdr temp = elim (temp == hdr) [
  | true ↦ ok []
  | false ↦ freelist_loop k mem top hdr ((mem temp + 16) % word_mod) >>= λ rest.
      ok (print_chunk mem top temp ∷ rest)
]

unfoldable pub print_freelist : ℕ → Memory → (top hdr : ℕ) → Run (List Printed)
unfolding freelist_loop
print_freelist k mem top hdr = freelist_loop k mem top hdr ((mem hdr + 16) % word_mod)
