-- ===== src/Prelude/Text.antt =====
-- Texts as lists of bytes: cutting at a byte, as `strstr` with a text of one byte and `strtok` do.
use Prim.Native.Char.{code}
use Prim.Native.String.{String}
use mathlib.Core.Path.{◌≡◌, refl, ap, ◌∙◌}
use mathlib.Core.Bool.{Bool, true, false, ◌&&◌}
use mathlib.Core.Option.{Option, none, some}
use mathlib.Core.List.{List, [], ◌∷◌, ◌++◌}
use Prim.Native.Nat.{ℕ}
use native.Mathlib.Omega.{arith}
use cs361_projects.Prelude.Lists.{All}
use cs361_projects.Prelude.Tests.{◌==◌, if◌then◌else◌}

abbrev pub Chars : Type 0
Chars = List ℕ

-- The bytes of an ASCII text.
abbrev pub codes : String → Chars
codes String.[] = []
codes (String.◌∷◌ c s) = code c ∷ codes s

-- The text in front of the first `d`, and the text behind it.
unfoldable pub cut : ℕ → Chars → Option (Chars × Chars)
cut d [] = none
cut d (c ∷ s) = elim (c == d) [
  | true ↦ some ([], s)
  | false ↦ elim (cut d s) [ none ↦ none | some f ↦ some (c ∷ f.0, f.1) ]
]

abbrev pub Lacks : ℕ → Chars → Type 0
Lacks d s = All (λ c. (c == d) ≡ false) s

pub cut-lacking : (d : ℕ) (s : Chars) → Lacks d s → cut d s ≡ none
unfolding cut
cut-lacking d [] h = refl
cut-lacking d (c ∷ s) h = rw (cut, h.0, cut-lacking d s h.1)

pub cut-append : (d : ℕ) (s t : Chars) → Lacks d s → cut d (s ++ d ∷ t) ≡ some (s, t)
unfolding cut
cut-append d [] t h = let here : (d == d) ≡ true = ground arith in rw (cut, here)
cut-append d (c ∷ s) t h = rw (cut, h.0, cut-append d s t h.1)

-- The fields between the `d`s of a text, and those that are not empty: what `strtok` gives one after
-- the other.
abbrev pub extend : ℕ → List Chars → List Chars
extend c [] = (c ∷ []) ∷ []
extend c (w ∷ ws) = (c ∷ w) ∷ ws

unfoldable pub fields : ℕ → Chars → List Chars
fields d [] = [] ∷ []
fields d (c ∷ s) = let rest = fields d s in if c == d then [] ∷ rest else extend c rest

unfoldable pub non_empty : List Chars → List Chars
non_empty [] = []
non_empty ([] ∷ ws) = non_empty ws
non_empty ((c ∷ w) ∷ ws) = (c ∷ w) ∷ non_empty ws

unfoldable pub tokens : ℕ → Chars → List Chars
unfolding fields non_empty
tokens d s = non_empty (fields d s)

-- The words with the separator between them.
unfoldable pub join : ℕ → List Chars → Chars
join d [] = []
join d (w ∷ []) = w
join d (w ∷ v ∷ vs) = w ++ d ∷ join d (v ∷ vs)

abbrev pub IsWord : ℕ → Chars → Type 0
IsWord d [] = ⊥
IsWord d (c ∷ w) = Lacks d (c ∷ w)

fields-lacking : (d : ℕ) (w : Chars) → Lacks d w → fields d w ≡ w ∷ []
unfolding fields
fields-lacking d [] h = refl
fields-lacking d (c ∷ w) h = rw (h.0, fields-lacking d w h.1)

fields-append : (d : ℕ) (w s : Chars) → Lacks d w → fields d (w ++ d ∷ s) ≡ w ∷ fields d s
unfolding fields
fields-append d [] s h = let here : (d == d) ≡ true = ground arith in rw here
fields-append d (c ∷ w) s h = rw (h.0, fields-append d w s h.1)

IsWord-Lacks : (d : ℕ) (w : Chars) → IsWord d w → Lacks d w
IsWord-Lacks d [] h = absurd h
IsWord-Lacks d (c ∷ w) h = h

non_empty-IsWord :
    (d : ℕ) (w : Chars) (ws : List Chars) → IsWord d w → non_empty (w ∷ ws) ≡ w ∷ non_empty ws
unfolding non_empty
non_empty-IsWord d [] ws h = absurd h
non_empty-IsWord d (c ∷ w) ws h = refl

-- Words that are joined come apart again.
pub tokens-join : (d : ℕ) (ws : List Chars) → All (IsWord d) ws → tokens d (join d ws) ≡ ws
unfolding tokens join
tokens-join d [] h = refl
tokens-join d (w ∷ []) h =
    rw (fields-lacking d w (IsWord-Lacks d w h.0)) (non_empty-IsWord d w [] h.0)
tokens-join d (w ∷ v ∷ vs) h = rw (fields-append d w (join d (v ∷ vs)) (IsWord-Lacks d w h.0)) (
    non_empty-IsWord d w (fields d (join d (v ∷ vs))) h.0
    ∙ ap (λ z. w ∷ z) (tokens-join d (v ∷ vs) h.1))

-- `strcmp(s, t) == 0`
unfoldable pub same : Chars → Chars → Bool
same [] [] = true
same [] (d ∷ t) = false
same (c ∷ s) [] = false
same (c ∷ s) (d ∷ t) = (c == d) && same s t
