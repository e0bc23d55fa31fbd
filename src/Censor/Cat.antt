-- ===== src/Censor/Cat.antt =====
-- hw3-jli230-main/C/safecat.c, which hands every line of its input to `safewrite`, and the `write` of
-- hw3-jli230-main/C/safe.c, which takes the place of the C library's.
-- What `getline` gives is an argument: a line, or nothing at the end of the input and then again and
-- again. An `argc` other than 1 ends safecat with a message.
use cs361_projects.Prelude.{
  ℕ, suc, ◌<◌, ◌≡◌, refl, Option, none, some, List, [], ◌∷◌, map, All, length,
}
use cs361_projects.Prelude.Int.{ℤ, pos, negsuc}
use cs361_projects.Censor.{Chars, evolution, god, Run, ok, ◌>>=◌, safewrite, buffer_size}
use cs361_projects.Censor.Replacing.{Replaced, safewrite-Replaced}

-- The loop of safecat: the texts and counts that reach `write`. At the end of the input the `-1` of
-- `getline` is no 0, so that the line that is there is written once more, with this count. `safewrite`
-- changes the line in place.
unfoldable pub cat : ℕ → List (Option Chars) → (line : Chars) → Run (List (Chars × ℤ))
cat k [] line = ok []
cat k (some next ∷ more) line = do
  r ← safewrite k next (pos (length next))
  rest ← cat k more r.0
  ok (r ∷ rest)
cat k (none ∷ more) line = do r ← safewrite k line (negsuc 0); rest ← cat k more r.0; ok (r ∷ rest)

-- What `write` of safe.c does behind its loop.
pub data Call : Type 0 where
  allocates copies : (count : ℕ) → Call
  writes : Chars → ℤ → Call
  exits : ℕ → Call

-- `write` of safe.c: its loop is that of `safewrite`. `strcpy` copies the zero byte as well.
unfoldable pub write : ℕ → (buf : Chars) → (count : ℤ) → Run (List Call)
write k buf count = do
  r ← safewrite k buf count
  ok (allocates (length r.0) ∷ copies (suc (length r.0)) ∷ writes r.0 r.1 ∷ exits 1 ∷ [])

-- What is written for a line: the line with every "evolution" replaced by "GOD", and its length.
abbrev pub Censored : List Chars → List (Chars × ℤ) → Type 0
Censored [] [] = Unit
Censored (t ∷ lines) (r ∷ out) =
    (Replaced evolution god t r.0 × (r.1 ≡ pos (length r.0))) × Censored lines out
Censored _ _ = ⊥

-- With lines that fit into the buffer with their zero bytes, and more fuel than each has bytes, safecat
-- writes each of them in order, with every "evolution" replaced by "GOD" and with its length.
pub cat-Censored :
    (k : ℕ) (lines : List Chars) (line : Chars)
    → All (λ t. (length t < k) × (length t < buffer_size)) lines
    → (out : List (Chars × ℤ)) × (cat k (map some lines) line ≡ ok out) × Censored lines out
unfolding cat
cat-Censored k [] line h = ([], refl, tt)
cat-Censored k (t ∷ lines) line h =
    let (t', done, replaced) = safewrite-Replaced k t h.0.0 h.0.1 in
    let (out, rest, censored) = cat-Censored k lines t' h.1 in
    ((t', pos (length t')) ∷ out, rw (done, rest) refl, ((replaced, refl), censored))

-- For a text that fits, the block that `write` of safe.c allocates is one byte too small for what is
-- copied into it; the text that is written is the censored one, and the process ends.
write-short :
    (k : ℕ) (buf : Chars)
    → length buf < k
    → length buf < buffer_size
    → (t : Chars) × (write k buf (pos (length buf))
        ≡ ok (
            allocates (length t)
            ∷ copies (suc (length t))
            ∷ writes t (pos (length t))
            ∷ exits 1
            ∷ []))
      × Replaced evolution god buf t
unfolding write
write-short k buf enough fits =
    let (t, done, replaced) = safewrite-Replaced k buf enough fits in (t, rw done refl, replaced)
