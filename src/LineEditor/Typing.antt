-- ===== src/LineEditor/Typing.antt =====
-- Typing in the inner loop of hw5-jli230-main/C/dsh_main.c, against a text with a cursor.
use cs361_projects.Prelude.{
  ℕ, zero, suc, ◌+◌, ◌-◌, ◌<◌, ◌≤◌, ◌≡◌, refl, ◌∙◌, true, false, ◌&&◌, ◌||◌, List, [], ◌∷◌, arith,
  ◌==◌, leb, ltb, length, if◌then◌else◌,
}
use cs361_projects.Prelude.Links.{update}
use cs361_projects.Prelude.Text.{Chars}
use cs361_projects.LineEditor.{
  Key, char, line_size, Edit, After, goes_on, wrap, shift, on_backspace, on_left, on_right, on_char,
}

-- What stands before the cursor, the last byte first, and what stands behind it.
pub record Cursor : Type 0 where
  pub before : Chars
  pub behind : Chars

-- The text of a cursor.
unfoldable pub spell : Chars → Chars → Chars
spell [] r = r
spell (x ∷ l) r = spell l (x ∷ r)

abbrev pub tail : Chars → Chars
tail [] = []
tail (x ∷ r) = r

-- A key on a cursor: a byte replaces the one at the cursor.
unfoldable pub press : Key → Cursor → Cursor
press (char c) z = record { before = c ∷ z.before; behind = tail z.behind }
press Key.backspace z = elim z.before [ [] ↦ z | x ∷ l ↦ record z { before = l } ]
press Key.left z = elim z.before [ [] ↦ z | x ∷ l ↦ record { before = l; behind = x ∷ z.behind } ]
press Key.right z = elim z.behind [ [] ↦ z | x ∷ r ↦ record { before = x ∷ z.before; behind = r } ]
press _ z = z

unfoldable pub press_all : List Key → Cursor → Cursor
press_all [] z = z
press_all (k ∷ ks) z = press_all ks (press k z)

abbrev pub no_text : Cursor
no_text = record { before = []; behind = [] }

-- The array holds the bytes before an index, and those from an index on with zeros behind them.
abbrev pub HoldsBefore : (ℕ → ℕ) → Chars → Type 0
HoldsBefore line [] = Unit
HoldsBefore line (x ∷ l) = (line (length l) ≡ x) × HoldsBefore line l

abbrev pub HoldsFrom : (ℕ → ℕ) → ℕ → Chars → Type 0
HoldsFrom line p [] = (i : ℕ) → p ≤ i → line i ≡ 0
HoldsFrom line p (x ∷ r) = (line p ≡ x) × HoldsFrom line (suc p) r

-- The variables of the loop show a cursor, in the first row.
pub record Shows (s : Edit) (z : Cursor) : Type 0 where
  pub lines : HoldsBefore s.line z.before × HoldsFrom s.line (length z.before) z.behind
  pub position : s.position ≡ length z.before
  pub endposition : s.endposition ≡ length z.before + length z.behind
  pub input_x : s.input_x ≡ length z.before + 1

pub HoldsBefore-frame :
    (line line' : ℕ → ℕ) (l : Chars)
    → HoldsBefore line l
    → ((i : ℕ) → i < length l → line' i ≡ line i)
    → HoldsBefore line' l
HoldsBefore-frame line line' [] h same = tt
HoldsBefore-frame line line' (x ∷ l) h same = (
  same (length l) (omega arith) ∙ h.0,
  HoldsBefore-frame line line' l h.1 (λ i lt. same i (omega arith)),
)

-- The bytes from an index on, seen from another array that has them elsewhere.
pub HoldsFrom-moved :
    (line line' : ℕ → ℕ) (p q : ℕ) (r : Chars)
    → HoldsFrom line p r
    → ((i : ℕ) → line' (q + i) ≡ line (p + i))
    → HoldsFrom line' q r
HoldsFrom-moved line line' p q [] h same = λ i le.
    let there : q + (i - q) ≡ i = omega arith in
    rw there at (same (i - q) ∙ h (p + (i - q)) (omega arith))
HoldsFrom-moved line line' p q (x ∷ r) h same =
    let here : q + 0 ≡ q = omega arith in
    let here' : p + 0 ≡ p = omega arith in
    (
      rw (here, here') at (same 0) ∙ h.0,
      HoldsFrom-moved line line' (suc p) (suc q) r h.1 λ i.
          let e : suc q + i ≡ q + (i + 1) = omega arith in
          let e' : suc p + i ≡ p + (i + 1) = omega arith in rw (e, e') (same (i + 1)),
    )

pub HoldsFrom-end :
    (line : ℕ → ℕ) (p : ℕ) (r : Chars)
    → HoldsFrom line p r
    → (i : ℕ) → p + length r ≤ i
    → line i ≡ 0
HoldsFrom-end line p [] h i le = h i (omega arith)
HoldsFrom-end line p (x ∷ r) h i le = HoldsFrom-end line (suc p) r h.1 i (omega arith)

shift_lem :
    (n i : ℕ) (line : ℕ → ℕ) (j : ℕ)
    → shift n i line j ≡ (if leb i j && ltb j (i + n) then line (j + 1) else line j)
unfolding shift
shift_lem zero i line j = ground arith
shift_lem (suc n) i line j = ground (arith, shift_lem n (i + 1) (update line i (line (i + 1))) j)

-- The outcome shows the cursor.
abbrev pub Becomes : After → Cursor → Type 0
Becomes o z = (s : Edit) × (o ≡ goes_on s) × Shows s z

pub wrap-Shows : (s : Edit) (z : Cursor) → Shows s z → length z.before < 63 → wrap s ≡ s
unfolding wrap
wrap-Shows s z h lt =
    let inside : (s.input_x == 64) ≡ false = ground (arith, h.input_x, lt) in rw (wrap, inside) refl

pub on_char-Shows :
    (c : ℕ) (s : Edit) (l r : Chars)
    → Shows s (record { before = l; behind = r })
    → length l < 63
    → Becomes (on_char c s) (press (char c) (record { before = l; behind = r }))
unfolding on_char press
on_char-Shows c s l r h lt =
    let room : leb line_size s.position ≡ false = ground (arith, h.position, lt) in
    (
      record s {
        line = update s.line s.position c;
        position = s.position + 1;
        endposition =
            if ltb s.endposition (s.position + 1) then s.endposition + 1 else s.endposition;
        length = s.length + 1;
        input_x = s.input_x + 1;
      },
      rw (on_char, room) refl,
      record {
        lines = typed r h.lines.1;
        position = omega (arith, h.position);
        endposition = end r h.endposition;
        input_x = omega (arith, h.input_x);
      },
    )
  where
    here : update s.line s.position c (length l) ≡ c
    here = ground (arith, h.position)

    front : HoldsBefore (update s.line s.position c) l
    front =
        HoldsBefore-frame s.line (update s.line s.position c) l h.lines.0
          λ i low. ground (arith, h.position)

    typed :
        (r : Chars)
        → HoldsFrom s.line (length l) r
        → HoldsBefore (update s.line s.position c) (c ∷ l)
          × HoldsFrom (update s.line s.position c) (suc (length l)) (tail r)
    typed [] zeros = ((here, front), λ i le. ground (arith, h.position, zeros i))
    typed (x ∷ r) old = (
      (here, front),
      HoldsFrom-moved s.line (update s.line s.position c) (suc (length l)) (suc (length l)) r old.1
          λ i. ground (arith, h.position),
    )

    end :
        (r : Chars)
        → s.endposition ≡ length l + length r
        → (if ltb s.endposition (s.position + 1) then s.endposition + 1 else s.endposition)
          ≡ length (c ∷ l) + length (tail r)
    end [] e = ground (arith, h.position, e)
    end (x ∷ r) e = ground (arith, h.position, e)

pub on_left-Shows :
    (s : Edit) (l r : Chars)
    → Shows s (record { before = l; behind = r })
    → Becomes (on_left s) (press Key.left (record { before = l; behind = r }))
unfolding on_left press
on_left-Shows s [] r h =
    let start : (s.input_x == 1) ≡ true = ground (arith, h.input_x) in
    (s, rw (on_left, start) refl, h)
on_left-Shows s (x ∷ l) r h =
    let inside : (s.input_x == 1) ≡ false = ground (arith, h.input_x) in
    let after : (s.position == 0) ≡ false = ground (arith, h.position) in
    (
      record s { input_x = s.input_x - 1; position = s.position - 1 },
      rw (on_left, inside, after) refl,
      record {
        lines = (h.lines.0.1, (h.lines.0.0, h.lines.1));
        position = omega (arith, h.position);
        endposition = omega (arith, h.endposition);
        input_x = omega (arith, h.input_x);
      },
    )

pub on_right-Shows :
    (s : Edit) (l r : Chars)
    → Shows s (record { before = l; behind = r })
    → Becomes (on_right s) (press Key.right (record { before = l; behind = r }))
unfolding on_right press
on_right-Shows s l [] h =
    let at_end : (s.input_x == s.endposition + 1) ≡ true =
      ground (arith, h.input_x, h.endposition) in
    (s, rw (on_right, at_end) refl, h)
on_right-Shows s l (x ∷ r) h =
    let inside : (s.input_x == s.endposition + 1) ≡ false =
      ground (arith, h.input_x, h.endposition) in
    (
      record s { input_x = s.input_x + 1; position = s.position + 1 },
      rw (on_right, inside) refl,
      record {
        lines = ((h.lines.1.0, h.lines.0), h.lines.1.1);
        position = omega (arith, h.position);
        endposition = omega (arith, h.endposition);
        input_x = omega (arith, h.input_x);
      },
    )

pub on_backspace-Shows :
    (s : Edit) (l r : Chars)
    → Shows s (record { before = l; behind = r })
    → length l + length r < 1024
    → Becomes (on_backspace s) (press Key.backspace (record { before = l; behind = r }))
unfolding on_backspace press
on_backspace-Shows s [] r h lt =
    let start : (s.input_x == 1) ≡ true = ground (arith, h.input_x) in
    (s, rw (on_backspace, start) refl, h)
on_backspace-Shows s (x ∷ l) r h lt =
    let inside : (s.input_x == 1) ≡ false = ground (arith, h.input_x) in
    let before : (s.position == 0) ≡ false = ground (arith, h.position) in
    let room : ((s.endposition == 0) || leb line_size s.endposition) ≡ false =
      ground (arith, h.endposition, lt) in
    (
      record s {
        line = erased;
        position = s.position - 1;
        endposition = s.endposition - 1;
        input_x = s.input_x - 1;
      },
      rw (on_backspace, inside, before, room) refl,
      record {
        lines = (
          HoldsBefore-frame s.line erased l h.lines.0.1 λ i low. kept i low,
          HoldsFrom-moved s.line erased (suc (length l)) (length l) r h.lines.1 λ i. moved i,
        );
        position = omega (arith, h.position);
        endposition = omega (arith, h.endposition);
        input_x = omega (arith, h.input_x);
      },
    )
  where
    erased : ℕ → ℕ
    erased =
        update (shift (s.endposition + 1 - s.position) (s.position - 1) s.line) (s.endposition - 1)
          0

    kept : (i : ℕ) → i < length l → erased i ≡ s.line i
    kept i low = ground (
      arith,
      h.position,
      h.endposition,
      shift_lem (s.endposition + 1 - s.position) (s.position - 1) s.line i,
    )

    zeros : (i : ℕ) → length l + suc (length r) ≤ i → s.line i ≡ 0
    zeros i le = HoldsFrom-end s.line (suc (length l)) r h.lines.1 i (omega (arith, le))

    moved : (i : ℕ) → erased (length l + i) ≡ s.line (suc (length l) + i)
    moved i = ground (
      arith,
      h.position,
      h.endposition,
      shift_lem (s.endposition + 1 - s.position) (s.position - 1) s.line (length l + i),
      zeros (length l + i),
      zeros (suc (length l) + i),
    )
