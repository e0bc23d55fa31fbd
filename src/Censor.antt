-- ===== src/Censor.antt =====
-- hw3-jli230-main/C/safeprep.c and the same loop in safe.c: text is written with every "evolution"
-- in it replaced by "GOD".
-- A string is the list of its bytes before the zero byte. The local buffer has 1024 bytes; a text
-- that does not fit into it with its zero byte is an overflow.
pub mod Replacing
pub mod Cat
mod Examples
use cs361_projects.Prelude.{
  ℕ, zero, suc, ◌-◌, none, some, Option, List, [], ◌∷◌, ◌++◌, ◌==◌, ltb, length, if◌then◌else◌,
}
use cs361_projects.Prelude.Int.{ℤ, pos, ◌-ℤ◌}

abbrev pub Chars : Type 0
Chars = List ℕ

abbrev pub volution : Chars
volution = 118 ∷ 111 ∷ 108 ∷ 117 ∷ 116 ∷ 105 ∷ 111 ∷ 110 ∷ []

abbrev pub evolution : Chars
evolution = 101 ∷ volution

abbrev pub god : Chars
god = 71 ∷ 79 ∷ 68 ∷ []

-- What follows `w` at the start of a text, if `w` stands there.
unfoldable pub strip : Chars → Chars → Option Chars
strip [] s = some s
strip (c ∷ w) [] = none
strip (c ∷ w) (x ∷ s) = if c == x then strip w s else none

-- `strstr(s, w)`: the text in front of the first `w`, and the text behind it.
unfoldable pub strstr : Chars → Chars → Option (Chars × Chars)
strstr w [] = elim (strip w []) [ none ↦ none | some r ↦ some ([], r) ]
strstr w (x ∷ s) = elim (strip w (x ∷ s)) [
  | some r ↦ some ([], r)
  | none ↦ elim (strstr w s) [ none ↦ none | some f ↦ some (x ∷ f.0, f.1) ]
]

pub data Run {ℓ} (A : Type ℓ) : Type ℓ where
  ok : A → Run A
  overflow out_of_fuel : Run A

infixl 5 ◌>>=◌
abbrev pub ◌>>=◌ {ℓ κ} : {A : Type ℓ} {B : Type κ} → Run A → (A → Run B) → Run B
◌>>=◌ (ok a) f = f a
◌>>=◌ overflow f = overflow
◌>>=◌ out_of_fuel f = out_of_fuel

-- The loop from `ret` on: what it puts into the buffer, and the `count` it ends with.
unfoldable pub replace_loop : ℕ → (ret : Chars) → (count : ℤ) → Run (Chars × ℤ)
replace_loop zero ret count = out_of_fuel
replace_loop (suc k) ret count = elim (strstr evolution ret) [
  | none ↦ ok (ret, count)
  | some f ↦ replace_loop k f.1 (count -ℤ pos 6) >>= λ r. ok (f.0 ++ god ++ r.0, r.1)
]

abbrev pub buffer_size : ℕ
buffer_size = 1024

-- `safewrite`: the text and the count that reach `write`. `k` is fuel for the loop.
unfoldable pub safewrite : ℕ → (buf : Chars) → (count : ℤ) → Run (Chars × ℤ)
safewrite k buf count =
    replace_loop k buf count >>= λ r. if ltb (length r.0) buffer_size then ok r else overflow
