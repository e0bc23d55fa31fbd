-- ===== src/LineEditor/Recall.antt =====
-- Recalling former lines in the inner loop of hw5-jli230-main/C/dsh_main.c.
use cs361_projects.Prelude.{
  ℕ, zero, suc, ◌+◌, ◌-◌, ◌<◌, ◌≤◌, ◌≡◌, refl, ap, sym, subst, ◌∙◌, true, false, ◌&&◌, not, List,
  [], ◌∷◌, ◌++◌, arith, ◌==◌, leb, length, length-append,
}
use cs361_projects.Prelude.Links.{update}
use cs361_projects.Prelude.Text.{Chars}
use cs361_projects.LineEditor.{
  Key, char, enter, up, newline, line_size, Edit, After, goes_on, entered, fresh, wrap, spelled,
  recall, step_back, on_enter, on_up, on_char, on_key, on_keys,
}
use cs361_projects.LineEditor.Typing.{HoldsFrom, HoldsFrom-end, HoldsFrom-moved}
use cs361_projects.LineEditor.Lines.{slice, slice-HoldsFrom, HoldsFrom-newline, on_keys-last}

spelled-HoldsFrom : (s : Chars) → HoldsFrom (spelled s) 0 s
unfolding spelled
spelled-HoldsFrom [] = λ i le. refl
spelled-HoldsFrom (c ∷ s) = (
  refl,
  HoldsFrom-moved (spelled s) (spelled (c ∷ s)) 0 1 s (spelled-HoldsFrom s) λ i.
      let e : 1 + i ≡ suc i = omega arith in let e' : 0 + i ≡ i = omega arith in rw (e, e') refl,
)

-- The line in a state is some text.
Spells : Edit → Chars → Type 0
Spells s t = HoldsFrom s.line 0 t × (s.endposition ≡ length t)

-- The line that is handed on is some text with a newline.
abbrev pub HandsOn : After → Chars → Type 0
HandsOn o t =
    (s : Edit) × (o ≡ entered s)
    × (slice s.endposition 0 s.line ≡ t ++ newline ∷ [])
    × (s.line s.endposition ≡ 0)

on_enter-HandsOn : (s : Edit) (t : Chars) → Spells s t → length t < 1023 → HandsOn (on_enter s) t
unfolding on_enter Spells
on_enter-HandsOn s t h lt =
    let room : leb line_size s.endposition ≡ false = ground (arith, h.1, lt) in
    let held = HoldsFrom-newline s.line 0 s.endposition t h.0 (omega (arith, h.1)) in
    let size : s.endposition + 1 ≡ length (t ++ newline ∷ []) =
      omega (arith, h.1, length-append {0} t (newline ∷ [])) in
    (
      record s {
        line = update s.line s.endposition newline;
        endposition = s.endposition + 1;
        input_x = 1;
      },
      rw (on_enter, room) refl,
      rw size (slice-HoldsFrom (update s.line s.endposition newline) 0 (t ++ newline ∷ []) held),
      HoldsFrom-end (update s.line s.endposition newline) 0 (t ++ newline ∷ []) held
          (s.endposition + 1) (omega (arith, size)),
    )

recall_lem :
    (entry : Chars) (s : Edit)
    → 0 < length entry
    → recall entry s
      ≡ goes_on
          (record s { line = spelled entry; length = length entry; endposition = length entry })
unfolding recall
recall_lem [] s h = elim h [ ]
recall_lem (c ∷ entry) s h = refl

-- The state when the line of number `i` has been recalled in a fresh line.
browsed : (ℕ → Chars) → (i y : ℕ) → Edit
browsed e i y = record {
  line = spelled (e i);
  position = 0;
  endposition = length (e i);
  length = length (e i);
  counter = i;
  accessedhistory = true;
  input_x = 1;
  input_y = y;
}

up-fresh :
    (e : ℕ → Chars) (order y : ℕ)
    → 0 < order
    → 0 < length (e order)
    → on_key e order up (fresh order 1 y) ≡ goes_on (browsed e order y)
unfolding on_key wrap fresh on_up step_back browsed
up-fresh e order y some_lines full =
    let passes : (leb order 1 && not (order == 1)) ≡ false = ground arith in
    rw passes (recall_lem (e order) _ full)

up-browsed :
    (e : ℕ → Chars) (order i y : ℕ)
    → 0 < i
    → i < order
    → 0 < length (e i)
    → on_key e order up (browsed e (suc i) y) ≡ goes_on (browsed e i y)
unfolding on_key wrap on_up step_back browsed
up-browsed e order i y low high full =
    let passes : (leb (suc i) 1 && not (order == 1)) ≡ false = ground arith in
    let several : (order == 1) ≡ false = ground arith in
    let before : suc i - 1 ≡ i = omega arith in
    rw (passes, several, before) (recall_lem (e i) _ full)

abbrev pub times : ℕ → Key → List Key
times zero k = []
times (suc n) k = k ∷ times n k

on_keys-cons :
    (e : ℕ → Chars) (order : ℕ) (k : Key) (ks : List Key) (s s' : Edit)
    → on_key e order k s ≡ goes_on s'
    → on_keys e order (k ∷ ks) s ≡ on_keys e order ks s'
unfolding on_keys
on_keys-cons e order k ks s s' h = rw (on_keys, h) refl

-- `n` times KEY_UP from the line of number `i + n` come to the line of number `i`.
ups-browsed :
    (e : ℕ → Chars) (order n i y : ℕ) (ks : List Key)
    → 0 < i
    → i + n ≤ order
    → ((j : ℕ) → 0 < j → j ≤ order → 0 < length (e j))
    → on_keys e order (times n up ++ ks) (browsed e (i + n) y) ≡ on_keys e order ks (browsed e i y)
ups-browsed e order zero i y ks low high full = let e0 : i + 0 ≡ i = omega arith in rw e0 refl
ups-browsed e order (suc n) i y ks low high full =
    let e1 : i + suc n ≡ suc (i + n) = omega arith in
    rw e1 (
      on_keys-cons e order up (times n up ++ ks) (browsed e (suc (i + n)) y) (browsed e (i + n) y) (
        up-browsed e order (i + n) y (omega arith) (omega arith)
          (full (i + n) (omega arith) (omega arith)))
      ∙ ups-browsed e order n i y ks low (omega arith) full)

enter-HandsOn :
    (e : ℕ → Chars) (order : ℕ) (s : Edit) (t : Chars)
    → s.input_x < 64
    → Spells s t
    → length t < 1023
    → HandsOn (on_keys e order (enter ∷ []) s) t
unfolding on_key wrap
enter-HandsOn e order s t column h lt =
    let (s', done, text, zero_behind) = on_enter-HandsOn s t h lt in
    let inside : (s.input_x == 64) ≡ false = ground (arith, column) in
    (s', on_keys-last e order enter s s' (rw inside done), text, zero_behind)

-- With former lines that are not empty, Up pressed n + 1 times and Enter hand on the line n
-- places before the last one, if it is shorter than 1023 bytes, with a zero byte behind its
-- newline.
pub on_keys-browse :
    (e : ℕ → Chars) (order n i y : ℕ)
    → 0 < i
    → i + n ≡ order
    → ((j : ℕ) → 0 < j → j ≤ order → 0 < length (e j))
    → length (e i) < 1023
    → HandsOn (on_keys e order (times (suc n) up ++ enter ∷ []) (fresh order 1 y)) (e i)
unfolding Spells browsed
on_keys-browse e order n i y low sum full short =
    let (s, done, text, zero_behind) =
      enter-HandsOn e order (browsed e i y) (e i) (omega arith) (spelled-HoldsFrom (e i), refl)
        short in
    let first : on_key e order up (fresh order 1 y) ≡ goes_on (browsed e (i + n) y) = rw sum (
      up-fresh e order y (omega (arith, low, sum))
        (full order (omega (arith, low, sum)) (omega arith))) in
    (
      s,
      on_keys-cons e order up (times n up ++ enter ∷ []) (fresh order 1 y) (browsed e (i + n) y)
            first
          ∙ ups-browsed e order n i y (enter ∷ []) low (omega (arith, sum)) full
          ∙ done,
      text,
      zero_behind,
    )

char-browsed :
    (e : ℕ → Chars) (order i y c d : ℕ) (ds : Chars)
    → e i ≡ d ∷ ds
    → (s : Edit) × (on_key e order (char c) (browsed e i y) ≡ goes_on s)
      × Spells s (c ∷ ds)
      × (s.input_x ≡ 2)
unfolding on_key wrap on_char browsed Spells
char-browsed e order i y c d ds h =
    let held : HoldsFrom (spelled (e i)) 0 (d ∷ ds) =
      subst (λ z. HoldsFrom (spelled z) 0 (d ∷ ds)) (sym h) (spelled-HoldsFrom (d ∷ ds)) in
    (
      _,
      refl,
      (
        (
          refl,
          HoldsFrom-moved (spelled (e i)) (update (spelled (e i)) 0 c) 1 1 ds held.1
              λ k. ground arith,
        ),
        ground (arith, ap length h),
      ),
      refl,
    )

-- When the last line is not empty and shorter than 1023 bytes, Up, a byte and Enter hand it on
-- with its first byte replaced by the byte.
on_keys-overwrite :
    (e : ℕ → Chars) (order y c d : ℕ) (ds : Chars)
    → 0 < order
    → e order ≡ d ∷ ds
    → length ds < 1022
    → HandsOn (on_keys e order (up ∷ char c ∷ enter ∷ []) (fresh order 1 y)) (c ∷ ds)
on_keys-overwrite e order y c d ds some_lines h short =
    let (s, typed, spells, column) = char-browsed e order order y c d ds h in
    let (s', done, text, zero_behind) =
      enter-HandsOn e order s (c ∷ ds) (omega (arith, column)) spells (omega arith) in
    (
      s',
      on_keys-cons e order up (char c ∷ enter ∷ []) (fresh order 1 y) (browsed e order y)
            (up-fresh e order y some_lines (omega (arith, ap length h)))
          ∙ on_keys-cons e order (char c) (enter ∷ []) (browsed e order y) s typed
          ∙ done,
      text,
      zero_behind,
    )
