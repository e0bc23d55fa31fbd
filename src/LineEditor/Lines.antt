-- ===== src/LineEditor/Lines.antt =====
-- A line from its first key to Enter, in the inner loop of hw5-jli230-main/C/dsh_main.c.
use cs361_projects.Prelude.{
  ℕ, zero, suc, ◌+◌, ◌<◌, ◌≤◌, ◌≡◌, refl, ap, ◌∙◌, false, List, [], ◌∷◌, ◌++◌, arith, leb, length,
  length-append, All,
}
use cs361_projects.Prelude.Links.{update}
use cs361_projects.Prelude.Text.{Chars}
use cs361_projects.LineEditor.{
  Key, char, enter, newline, line_size, Edit, After, entered, fresh, on_enter, on_key, on_keys,
}
use cs361_projects.LineEditor.Typing.{
  Cursor, spell, press, press_all, no_text, HoldsBefore, HoldsFrom, HoldsFrom-end, Shows, Becomes,
  wrap-Shows, on_char-Shows, on_left-Shows, on_right-Shows, on_backspace-Shows, HoldsBefore-frame,
}

-- The keys that write and move within a line.
abbrev pub IsEditing : Key → Type 0
IsEditing (char c) = Unit
IsEditing Key.backspace = Unit
IsEditing Key.left = Unit
IsEditing Key.right = Unit
IsEditing _ = ⊥

-- How many bytes the keys write.
unfoldable pub written : List Key → ℕ
written [] = 0
written (char c ∷ ks) = suc (written ks)
written (_ ∷ ks) = written ks

abbrev pub extent : Cursor → ℕ
extent z = length z.before + length z.behind

on_key-Shows :
    (entries : ℕ → Chars) (order : ℕ) (k : Key) (s : Edit) (z : Cursor)
    → IsEditing k
    → Shows s z
    → extent z + written (k ∷ []) < 64
    → extent z < 63
    → Becomes (on_key entries order k s) (press k z)
unfolding on_key written
on_key-Shows entries order (char c) s z e h lt few =
    rw (wrap-Shows s z h (omega (arith, few)))
      (on_char-Shows c s z.before z.behind h (omega (arith, few)))
on_key-Shows entries order Key.backspace s z e h lt few =
    rw (wrap-Shows s z h (omega (arith, few)))
      (on_backspace-Shows s z.before z.behind h (omega (arith, few)))
on_key-Shows entries order Key.left s z e h lt few =
    rw (wrap-Shows s z h (omega (arith, few))) (on_left-Shows s z.before z.behind h)
on_key-Shows entries order Key.right s z e h lt few =
    rw (wrap-Shows s z h (omega (arith, few))) (on_right-Shows s z.before z.behind h)
on_key-Shows entries order _ s z e h lt few = absurd e

extent-press_parts :
    (k : Key) (l r : Chars)
    → extent (press k (record { before = l; behind = r })) ≤ length l + length r + written (k ∷ [])
unfolding press written
extent-press_parts (char c) l [] = omega arith
extent-press_parts (char c) l (x ∷ r) = omega arith
extent-press_parts Key.backspace [] r = omega arith
extent-press_parts Key.backspace (x ∷ l) r = omega arith
extent-press_parts Key.left [] r = omega arith
extent-press_parts Key.left (x ∷ l) r = omega arith
extent-press_parts Key.right l [] = omega arith
extent-press_parts Key.right l (x ∷ r) = omega arith
extent-press_parts enter l r = omega arith
extent-press_parts Key.up l r = omega arith
extent-press_parts Key.down l r = omega arith

pub extent-press : (k : Key) (z : Cursor) → extent (press k z) ≤ extent z + written (k ∷ [])
extent-press k z = extent-press_parts k z.before z.behind

pub written-cons : (k : Key) (ks : List Key) → written (k ∷ ks) ≡ written (k ∷ []) + written ks
unfolding written
written-cons (char c) ks = omega arith
written-cons Key.backspace ks = omega arith
written-cons Key.left ks = omega arith
written-cons Key.right ks = omega arith
written-cons enter ks = omega arith
written-cons Key.up ks = omega arith
written-cons Key.down ks = omega arith

-- So many bytes of an array, from an index on.
unfoldable pub slice : ℕ → ℕ → (ℕ → ℕ) → Chars
slice zero i line = []
slice (suc n) i line = line i ∷ slice n (suc i) line

pub slice-HoldsFrom :
    (line : ℕ → ℕ) (p : ℕ) (r : Chars) → HoldsFrom line p r → slice (length r) p line ≡ r
unfolding slice
slice-HoldsFrom line p [] h = refl
slice-HoldsFrom line p (x ∷ r) h = rw (h.0, slice-HoldsFrom line (suc p) r h.1) refl

slice-spell :
    (line : ℕ → ℕ) (l r : Chars)
    → HoldsBefore line l
    → slice (length r) (length l) line ≡ r
    → slice (length l + length r) 0 line ≡ spell l r
unfolding slice spell
slice-spell line [] r h e = let same : 0 + length r ≡ length r = omega arith in rw same e
slice-spell line (x ∷ l) r h e =
    let same : suc (length l) + length r ≡ length l + suc (length r) = omega arith in
    rw same (slice-spell line l (x ∷ r) h.1 (rw (slice, h.0, e) refl))

-- The line that is handed on: the text of the cursor and a newline, with a zero byte behind it. The next
-- one starts in the first column.
abbrev pub Handed : After → Cursor → Type 0
Handed o z =
    (s : Edit) × (o ≡ entered s)
    × (slice s.endposition 0 s.line ≡ spell z.before (z.behind ++ newline ∷ []))
    × (s.line s.endposition ≡ 0)
    × (s.input_x ≡ 1)

pub HoldsFrom-newline :
    (line : ℕ → ℕ) (p e : ℕ) (r : Chars)
    → HoldsFrom line p r
    → e ≡ p + length r
    → HoldsFrom (update line e newline) p (r ++ newline ∷ [])
HoldsFrom-newline line p e [] h same = (ground arith, λ i le. ground (arith, h i))
HoldsFrom-newline line p e (x ∷ r) h same =
    (ground (arith, h.0), HoldsFrom-newline line (suc p) e r h.1 (omega arith))

on_enter-Handed : (s : Edit) (z : Cursor) → Shows s z → extent z < 64 → Handed (on_enter s) z
unfolding on_enter
on_enter-Handed s z h lt =
    let room : leb line_size s.endposition ≡ false = ground (arith, h.endposition, lt) in
    let line : ℕ → ℕ = update s.line s.endposition newline in
    let size : s.endposition + 1 ≡ length z.before + length (z.behind ++ newline ∷ []) =
      omega (arith, h.endposition, length-append {0} z.behind (newline ∷ [])) in
    (
      record s {
        line = update s.line s.endposition newline;
        endposition = s.endposition + 1;
        input_x = 1;
      },
      rw (on_enter, room) refl,
      rw size (
          slice-spell line z.before (z.behind ++ newline ∷ [])
            (HoldsBefore-frame s.line line z.before h.lines.0
              λ i low. ground (arith, h.endposition))
            (slice-HoldsFrom line (length z.before) (z.behind ++ newline ∷ []) (
              HoldsFrom-newline s.line (length z.before) s.endposition z.behind h.lines.1
                h.endposition))),
      ground (
        arith,
        HoldsFrom-end s.line (length z.before) z.behind h.lines.1 (s.endposition + 1),
        h.endposition,
      ),
      refl,
    )

pub on_keys-last :
    (entries : ℕ → Chars) (order : ℕ) (k : Key) (s s' : Edit)
    → on_key entries order k s ≡ entered s'
    → on_keys entries order (k ∷ []) s ≡ entered s'
unfolding on_keys
on_keys-last entries order k s s' e = rw (on_keys, e) refl

on_keys-Handed :
    (entries : ℕ → Chars) (order : ℕ) (ks : List Key) (s : Edit) (z : Cursor)
    → All IsEditing ks
    → Shows s z
    → extent z + written ks < 63
    → Handed (on_keys entries order (ks ++ enter ∷ []) s) (press_all ks z)
unfolding on_keys on_key press_all
on_keys-Handed entries order [] s z e h lt =
    let (s', done, text, zero_behind, column) = on_enter-Handed s z h (omega (arith, lt)) in
    (
      s',
      on_keys-last entries order enter s s'
          (ap on_enter (wrap-Shows s z h (omega (arith, lt))) ∙ done),
      text,
      zero_behind,
      column,
    )
on_keys-Handed entries order (k ∷ ks) s z e h lt =
    let (s', done, h') =
      on_key-Shows entries order k s z e.0 h (omega (arith, lt, written-cons k ks))
        (omega (arith, lt)) in
    rw (on_keys, done)
      (on_keys-Handed entries order ks s' (press k z) e.1 h'
        (omega (arith, lt, written-cons k ks, extent-press k z)))

-- For any bytes, Backspace, Left and Right, with fewer than 63 bytes among them, and then
-- Enter, from a fresh line: the line that is handed on is the text that the keys make of a
-- cursor in a list of bytes, with a newline and a zero byte behind it, and the next line
-- starts in the first column; no key reads or writes out of bounds.
pub on_keys-press_all :
    (entries : ℕ → Chars) (order y : ℕ) (ks : List Key)
    → All IsEditing ks
    → written ks < 63
    → Handed (on_keys entries order (ks ++ enter ∷ []) (fresh order 1 y)) (press_all ks no_text)
unfolding fresh
on_keys-press_all entries order y ks e lt =
    on_keys-Handed entries order ks (fresh order 1 y) no_text e
      (record { lines = (tt, λ i le. refl); position = refl; endposition = refl; input_x = refl })
      (omega (arith, lt))
