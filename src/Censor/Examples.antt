-- ===== src/Censor/Examples.antt =====
-- `safewrite` and safecat at concrete texts.
use cs361_projects.Prelude.{List, map, some, ◌≡◌, refl, ◌∷◌, [], ◌++◌, arith}
use cs361_projects.Prelude.Int.{ℤ, pos, ◌-ℤ◌}
use cs361_projects.Censor.{Chars, evolution, ok, replace_loop, safewrite, strip, strstr}
use cs361_projects.Censor.Cat.{cat, Censored, cat-Censored}

-- "an evolution!"
abbrev sentence : Chars
sentence = 97 ∷ 110 ∷ 32 ∷ evolution ++ 33 ∷ []

cat-Censored_example :
    (out : List (Chars × ℤ)) × (cat 14 (map some (sentence ∷ (97 ∷ []) ∷ [])) [] ≡ ok out)
    × Censored (sentence ∷ (97 ∷ []) ∷ []) out
cat-Censored_example =
    cat-Censored 14 (sentence ∷ (97 ∷ []) ∷ []) []
      ((omega arith, omega arith), ((omega arith, omega arith), tt))

-- "an GOD!"
sentence_written :
    safewrite 14 sentence (pos 13) ≡ ok (97 ∷ 110 ∷ 32 ∷ 71 ∷ 79 ∷ 68 ∷ 33 ∷ [], pos 7)
unfolding safewrite replace_loop strstr strip ◌-ℤ◌
sentence_written = refl
