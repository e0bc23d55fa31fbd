-- ===== src/HeapDump/Ring.antt =====
-- `print_freelist` of hw6-jli230-main/C/heapdump.c on a free list.
use cs361_projects.Prelude.{
  ℕ, zero, suc, ◌+◌, ◌%◌, ◌<◌, ◌≡◌, ◌≢◌, refl, true, false, List, [], ◌∷◌, map, arith, ◌==◌, length,
}
use cs361_projects.HeapDump.{
  Memory, word_mod, Printed, print_chunk, ok, freelist_loop, print_freelist,
}

-- From `temp` the links lead through the chunks back to the header of the list. A link points to the
-- place sixteen bytes before the memory that malloc gave out.
abbrev pub Leads : Memory → (hdr temp : ℕ) → List ℕ → Type 0
Leads mem hdr temp [] = temp ≡ hdr
Leads mem hdr temp (x ∷ xs) = (temp ≡ x) × (x ≢ hdr) × Leads mem hdr ((mem x + 16) % word_mod) xs

freelist_loop-round :
    (k : ℕ) (mem : Memory) (top hdr x : ℕ) (rest : List Printed)
    → x ≢ hdr
    → freelist_loop k mem top hdr ((mem x + 16) % word_mod) ≡ ok rest
    → freelist_loop (suc k) mem top hdr x ≡ ok (print_chunk mem top x ∷ rest)
unfolding freelist_loop
freelist_loop-round k mem top hdr x rest apart done =
    let other : (x == hdr) ≡ false = ground arith in rw (freelist_loop, other, done) refl

freelist_loop-Leads :
    (k : ℕ) (mem : Memory) (top hdr temp : ℕ) (xs : List ℕ)
    → Leads mem hdr temp xs
    → length xs < k
    → freelist_loop k mem top hdr temp ≡ ok (map (print_chunk mem top) xs)
unfolding freelist_loop
freelist_loop-Leads zero mem top hdr temp xs h lt = elim lt [ ]
freelist_loop-Leads (suc k) mem top hdr temp [] h lt =
    let back : (hdr == hdr) ≡ true = ground arith in rw (h, freelist_loop, back) refl
freelist_loop-Leads (suc k) mem top hdr temp (x ∷ xs) h lt = rw h.0 (
    freelist_loop-round k mem top hdr x (map (print_chunk mem top) xs) h.1
      (freelist_loop-Leads k mem top hdr ((mem x + 16) % word_mod) xs h.2 (omega arith)))

-- When the links lead from the header through some chunks, none of which is the header, back
-- to the header, and with more fuel than chunks, `print_freelist` prints these chunks, in the
-- order of the links, and ends.
pub print_freelist-Leads :
    (k : ℕ) (mem : Memory) (top hdr : ℕ) (xs : List ℕ)
    → Leads mem hdr ((mem hdr + 16) % word_mod) xs
    → length xs < k
    → print_freelist k mem top hdr ≡ ok (map (print_chunk mem top) xs)
unfolding print_freelist
print_freelist-Leads k mem top hdr xs h lt =
    freelist_loop-Leads k mem top hdr ((mem hdr + 16) % word_mod) xs h lt
