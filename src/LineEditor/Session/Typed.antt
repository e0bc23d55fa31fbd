-- ===== src/LineEditor/Session/Typed.antt =====
-- The lines that keys make in hw5-jli230-main/C/dsh_main.c, as texts without a zero byte.
use cs361_projects.Prelude.{
  ℕ, zero, suc, ◌+◌, ◌≤◌, ◌<◌, ◌≡◌, refl, sym, ap, ◌∙◌, true, false, List, [], ◌∷◌, ◌++◌, arith,
  ◌==◌, ==_iff, All-append, All, length, length-append,
}
use cs361_projects.Prelude.Text.{Chars, Lacks}
use cs361_projects.LineEditor.{Key, char, enter, backspace, up, down, left, right, newline}
use cs361_projects.LineEditor.Typing.{Cursor, spell, press, press_all, no_text}
use cs361_projects.LineEditor.Lines.{IsEditing, written, written-cons, extent, extent-press, slice}
use cs361_projects.LineEditor.Session.{ok, copied}

-- Bytes that are not zero, Backspace, Left and Right, with fewer than 63 bytes among them.
abbrev IsByte : Key → Type 0
IsByte (char c) = (c == 0) ≡ false
IsByte _ = Unit

pub record IsLine (keys : List Key) : Type 0 where
  pub editing : All IsEditing keys
  pub bytes : All IsByte keys
  pub few : written keys < 63

-- The line that such keys make, with its newline.
abbrev pub line_of : List Key → Chars
line_of keys = let z = press_all keys no_text in spell z.before (z.behind ++ newline ∷ [])

-- The text before the first zero byte.
pub copied-slice :
    (n m i : ℕ) (line : ℕ → ℕ)
    → m < n
    → Lacks 0 (slice m i line)
    → line (i + m) ≡ 0
    → copied n i line ≡ ok (slice m i line)
unfolding copied slice
copied-slice zero m i line lt h z = elim lt [ ]
copied-slice (suc n) zero i line lt h z =
    let here : i + 0 ≡ i = omega arith in
    let stop : (line i == 0) ≡ true = (==_iff (line i) 0).1 (ap line (sym here) ∙ z) in
    rw (copied, stop) refl
copied-slice (suc n) (suc m) i line lt h z =
    let there : i + suc m ≡ i + 1 + m = omega arith in
    let next : i + 1 ≡ suc i = omega arith in
    let rest : copied n (i + 1) line ≡ ok (slice m (i + 1) line) =
      copied-slice n m (i + 1) line (omega arith) (rw next h.1) (ap line (sym there) ∙ z) in
    rw (copied, h.0, rest, next) refl

pub length-slice : (m i : ℕ) (line : ℕ → ℕ) → length (slice m i line) ≡ m
unfolding slice
length-slice zero i line = refl
length-slice (suc m) i line = omega (arith, length-slice m (suc i) line)

length-spell : (l r : Chars) → length (spell l r) ≡ length l + length r
unfolding spell
length-spell [] r = omega arith
length-spell (x ∷ l) r = omega (arith, length-spell l (x ∷ r))

Lacks-spell : (l r : Chars) → Lacks 0 l → Lacks 0 r → Lacks 0 (spell l r)
unfolding spell
Lacks-spell [] r hl hr = hr
Lacks-spell (x ∷ l) r hl hr = Lacks-spell l (x ∷ r) hl.1 (hl.0, hr)

-- No zero byte on either side of the cursor.
abbrev NoZero : Cursor → Type 0
NoZero z = Lacks 0 z.before × Lacks 0 z.behind

press-NoZero :
    (k : Key) (l r : Chars)
    → IsByte k
    → Lacks 0 l
    → Lacks 0 r
    → NoZero (press k (record { before = l; behind = r }))
unfolding press
press-NoZero (char c) l [] b hl hr = ((b, hl), tt)
press-NoZero (char c) l (x ∷ r) b hl hr = ((b, hl), hr.1)
press-NoZero backspace [] r b hl hr = (hl, hr)
press-NoZero backspace (x ∷ l) r b hl hr = (hl.1, hr)
press-NoZero left [] r b hl hr = (hl, hr)
press-NoZero left (x ∷ l) r b hl hr = (hl.1, (hl.0, hr))
press-NoZero right l [] b hl hr = (hl, hr)
press-NoZero right l (x ∷ r) b hl hr = ((hr.0, hl), hr.1)
press-NoZero enter l r b hl hr = (hl, hr)
press-NoZero up l r b hl hr = (hl, hr)
press-NoZero down l r b hl hr = (hl, hr)

press_all-NoZero : (ks : List Key) (z : Cursor) → All IsByte ks → NoZero z → NoZero (press_all ks z)
unfolding press_all
press_all-NoZero [] z b h = h
press_all-NoZero (k ∷ ks) z b h =
    press_all-NoZero ks (press k z) b.1 (press-NoZero k z.before z.behind b.0 h.0 h.1)

extent-press_all : (ks : List Key) (z : Cursor) → extent (press_all ks z) ≤ extent z + written ks
unfolding press_all
extent-press_all [] z = omega arith
extent-press_all (k ∷ ks) z =
    omega (arith, extent-press_all ks (press k z), extent-press k z, written-cons k ks)

-- A line of such keys is short and has no zero byte.
pub line_of-Lacks : (keys : List Key) → IsLine keys → Lacks 0 (line_of keys)
line_of-Lacks keys h =
    let z = press_all keys no_text in
    let (l, r) = press_all-NoZero keys no_text h.bytes (tt, tt) in
    Lacks-spell z.before (z.behind ++ newline ∷ []) l
      (All-append (λ c. (c == 0) ≡ false) z.behind (newline ∷ []) r (refl, tt))

pub length-line_of : (keys : List Key) → IsLine keys → length (line_of keys) < 64
length-line_of keys h =
    let z = press_all keys no_text in
    omega (
      arith,
      h.few,
      extent-press_all keys no_text,
      length-spell z.before (z.behind ++ newline ∷ []),
      length-append {0} z.behind (newline ∷ []),
    )
