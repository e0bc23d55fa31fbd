-- ===== src/Censor/Replacing.antt =====
-- What `safewrite` of hw3-jli230-main/C/safeprep.c makes of a text.
use mathlib.Core.List.{append_assoc}
use cs361_projects.Prelude.{
  ℕ, zero, suc, ◌+◌, ◌<◌, ◌≤◌, ◌≡◌, refl, ap, sym, ◌∙◌, ◌≢◌, ◌⊎◌, inl, inr, true, none, some,
  Option, [], ◌∷◌, ◌++◌, arith, ◌==◌, ltb, length, length-append, Bool-cases,
}
use cs361_projects.Prelude.Int.{
  ℤ, pos, ◌-ℤ◌, ◌+ℤ◌, pos_part, neg_part, +ℤ_parts, -ℤ_parts, eq_of_parts,
}
use cs361_projects.Censor.{
  Chars, volution, evolution, god, strip, strstr, ok, replace_loop, buffer_size, safewrite,
}

-- `w` stands nowhere in `s`.
abbrev pub Absent : Chars → Chars → Type 0
Absent w s = (b a : Chars) → s ≢ b ++ w ++ a

-- The second text is the first with each `w` replaced by `v`.
pub data Replaced (w v : Chars) : Chars → Chars → Type 0 where
  clean : {s : Chars} → Absent w s → Replaced w v s s
  word : {b s t : Chars} → Absent w b → Replaced w v s t → Replaced w v (b ++ w ++ s) (b ++ v ++ t)

strip-append : (w s : Chars) → strip w (w ++ s) ≡ some s
unfolding strip
strip-append [] s = refl
strip-append (c ∷ w) s =
    let same : (c == c) ≡ true = ground arith in rw (strip, same) (strip-append w s)

strip-some : (w s r : Chars) → strip w s ≡ some r → s ≡ w ++ r
unfolding strip
strip-some [] s r h = cc h
strip-some (c ∷ w) [] r h = cc h
strip-some (c ∷ w) (x ∷ s) r h = elim (Bool-cases (c == x)) [
  | inl same ↦ let e : c ≡ x = ground arith in rw (e, strip-some w s r (rw same at h)) refl
  | inr other ↦ cc (rw other at h)
]

strstr-here : (w s r : Chars) → strip w s ≡ some r → strstr w s ≡ some ([], r)
unfolding strstr
strstr-here w [] r h = rw (strstr, h) refl
strstr-here w (x ∷ s) r h = rw (strstr, h) refl

strstr-later :
    (w : Chars) (x : ℕ) (s : Chars)
    → strip w (x ∷ s) ≡ none
    → strstr w (x ∷ s) ≡ (elim (strstr w s) [ none ↦ none | some f ↦ some (x ∷ f.0, f.1) ])
unfolding strstr
strstr-later w x s h = rw (strstr, h) refl

option-cases : (o : Option Chars) → ((r : Chars) × (o ≡ some r)) ⊎ (o ≡ none)
option-cases none = inr refl
option-cases (some r) = inl (r, refl)

found-cases : (o : Option (Chars × Chars)) → ((f : Chars × Chars) × (o ≡ some f)) ⊎ (o ≡ none)
found-cases none = inr refl
found-cases (some f) = inl (f, refl)

strstr-present : (w b a : Chars) → strstr w (b ++ w ++ a) ≢ none
strstr-present w [] a h = cc (h, strstr-here w (w ++ a) a (strip-append w a))
strstr-present w (x ∷ b) a h = elim (option-cases (strip w (x ∷ b ++ w ++ a))) [
  | inl (r, e) ↦ cc (h, strstr-here w (x ∷ b ++ w ++ a) r e)
  | inr e ↦ elim (found-cases (strstr w (b ++ w ++ a))) [
    | inl (f, e') ↦ let g = strstr-later w x (b ++ w ++ a) e in cc (h, rw e' at g)
    | inr e' ↦ strstr-present w b a e'
  ]
]

-- Where nothing is found, the word is absent.
strstr-Absent : (w s : Chars) → strstr w s ≡ none → Absent w s
strstr-Absent w s h b a e = strstr-present w b a (rw e at h)

nil-Absent : (c : ℕ) (w : Chars) → Absent (c ∷ w) []
nil-Absent c w [] a e = cc e
nil-Absent c w (x ∷ b) a e = cc e

cons-Absent :
    (c : ℕ) (w : Chars) (x : ℕ) (s : Chars)
    → ((a : Chars) → x ∷ s ≢ c ∷ w ++ a)
    → Absent (c ∷ w) s
    → Absent (c ∷ w) (x ∷ s)
cons-Absent c w x s start h [] a e = start a e
cons-Absent c w x s start h (y ∷ b) a e = h b a (cc e)

not_at_start :
    (c : ℕ) (w : Chars) (x : ℕ) (s b a : Chars)
    → s ≡ b ++ (c ∷ w) ++ a
    → strip (c ∷ w) (x ∷ s) ≡ none
    → (r : Chars) → x ∷ b ≢ c ∷ w ++ r
not_at_start c w x s b a parts h r e =
    let whole : x ∷ s ≡ (c ∷ w) ++ (r ++ (c ∷ w) ++ a) =
      ap (λ z. x ∷ z) parts
      ∙ ap (λ z. z ++ (c ∷ w) ++ a) e
      ∙ ap (λ z. z ++ a) (append_assoc (c ∷ w) r (c ∷ w))
      ∙ append_assoc (c ∷ w) (r ++ (c ∷ w)) a in
    let found : strip (c ∷ w) (x ∷ s) ≡ some (r ++ (c ∷ w) ++ a) =
      ap (strip (c ∷ w)) whole ∙ strip-append (c ∷ w) (r ++ (c ∷ w) ++ a) in
    cc (h, found)

-- What is found: the parts, and a front without the word.
strstr-some :
    (c : ℕ) (w s b a : Chars)
    → strstr (c ∷ w) s ≡ some (b, a)
    → (s ≡ b ++ (c ∷ w) ++ a) × Absent (c ∷ w) b
unfolding strstr strip
strstr-some c w [] b a h = cc h
strstr-some c w (x ∷ s) b a h = elim (option-cases (strip (c ∷ w) (x ∷ s))) [
  | inl (r, e) ↦
      let g = sym h ∙ strstr-here (c ∷ w) (x ∷ s) r e in
      let front : b ≡ [] = cc g in
      let behind : a ≡ r = cc g in
      rw (front, behind) (strip-some (c ∷ w) (x ∷ s) r e, nil-Absent c w)
  | inr e ↦ elim (found-cases (strstr (c ∷ w) s)) [
    | inl ((b', a'), e') ↦
        let (parts, absent) = strstr-some c w s b' a' e' in
        let g = rw e' at (sym h ∙ strstr-later (c ∷ w) x s e) in
        let front : b ≡ x ∷ b' = cc g in
        let behind : a ≡ a' = cc g in
        rw (front, behind)
          (ap (λ z. x ∷ z) parts, cons-Absent c w x b' (not_at_start c w x s b' a' parts e) absent)
    | inr e' ↦ cc (h, rw e' at (strstr-later (c ∷ w) x s e))
  ]
]

-- The length of three texts in a row.
length_of_three : (b w a : Chars) → length (b ++ w ++ a) ≡ length b + length w + length a
length_of_three b w a = omega (arith, length-append (b ++ w) a, length-append b w)

-- Six bytes fewer.
count_word :
    (n count : ℤ) (s t b a u : ℕ)
    → s ≡ b + 9 + a
    → u ≡ b + 3 + t
    → n +ℤ pos a ≡ (count -ℤ pos 6) +ℤ pos t
    → n +ℤ pos s ≡ count +ℤ pos u
count_word n count s t b a u size size' h = eq_of_parts (n +ℤ pos s) (count +ℤ pos u) (
    omega (
      arith,
      +ℤ_parts n (pos s),
      +ℤ_parts count (pos u),
      +ℤ_parts n (pos a),
      +ℤ_parts (count -ℤ pos 6) (pos t),
      -ℤ_parts count (pos 6),
      size,
      size',
      ap pos_part h,
      ap neg_part h,
    ))

same_count : (n : ℤ) (s t : ℕ) → n +ℤ pos s ≡ pos s +ℤ pos t → n ≡ pos t
same_count n s t h =
    eq_of_parts n (pos t)
      (omega (arith, +ℤ_parts n (pos s), +ℤ_parts (pos s) (pos t), ap pos_part h, ap neg_part h))

-- What the loop puts out, and how it counts.
abbrev pub Looped : ℕ → Chars → ℤ → Type 0
Looped k s count =
    (t : Chars) × (n : ℤ) × (replace_loop k s count ≡ ok (t, n))
    × Replaced evolution god s t
    × (length t ≤ length s)
    × (n +ℤ pos (length s) ≡ count +ℤ pos (length t))

replace_loop-Looped : (k : ℕ) (s : Chars) (count : ℤ) → length s < k → Looped k s count
unfolding replace_loop
replace_loop-Looped zero s count lt = elim lt [ ]
replace_loop-Looped (suc k) s count lt = elim (found-cases (strstr evolution s)) [
  | inl ((b, a), e) ↦
      let (parts, absent) = strstr-some 101 volution s b a e in
      let size : length s ≡ length b + 9 + length a =
        ap length parts ∙ length_of_three b evolution a in
      let (t, n, done, replaced, less, counted) =
        replace_loop-Looped k a (count -ℤ pos 6) (omega (arith, size, lt)) in
      (
        b ++ god ++ t,
        n,
        rw (replace_loop, e, done) refl,
        rw parts (word absent replaced),
        omega (arith, size, less, length_of_three b god t),
        count_word n count (length s) (length t) (length b) (length a) (length (b ++ god ++ t)) size
            (length_of_three b god t) counted,
      )
  | inr e ↦
      (s, count, rw (replace_loop, e) refl, clean (strstr-Absent evolution s e), omega arith, refl)
]

-- With more fuel than bytes and a text that fits into the buffer with its zero byte, given
-- with its length, `safewrite` hands on the text with every "evolution" in it replaced by
-- "GOD", with its length.
pub safewrite-Replaced :
    (k : ℕ) (buf : Chars)
    → length buf < k
    → length buf < buffer_size
    → (t : Chars) × (safewrite k buf (pos (length buf)) ≡ ok (t, pos (length t)))
      × Replaced evolution god buf t
unfolding safewrite
safewrite-Replaced k buf enough fits =
    let (t, n, done, replaced, less, counted) =
      replace_loop-Looped k buf (pos (length buf)) enough in
    let same : n ≡ pos (length t) = same_count n (length buf) (length t) counted in
    let room : ltb (length t) buffer_size ≡ true = ground (arith, less, fits) in
    (t, rw (safewrite, done, same, room) refl, replaced)
