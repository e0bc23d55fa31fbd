-- ===== src/LineEditor.antt =====
-- hw5-jli230-main/C/dsh_main.c: a window in front of the shell, in which a line is edited and former
-- lines are recalled.
-- A key is handled in one round of the inner loop; what is drawn is left out. `entries` gives the former
-- lines, `ptr[1]` to `ptr[order]`, each up to its newline.
pub mod Typing
pub mod Lines
pub mod History
pub mod Recall
pub mod Folder
pub mod Session
mod Examples
use cs361_projects.Prelude.{
  ℕ, zero, suc, ◌+◌, ◌-◌, Bool, true, false, ◌&&◌, ◌||◌, not, List, [], ◌∷◌, ◌==◌, leb, ltb, length,
  if◌then◌else◌,
}
use cs361_projects.Prelude.Links.{update}
use cs361_projects.Prelude.Text.{Chars}

pub data Key : Type 0 where
  enter backspace up down left right : Key
  char : ℕ → Key

abbrev pub newline : ℕ
newline = b'\n'

-- WIN_WIDTH, and the size of `line`.
abbrev pub win_width : ℕ
win_width = 65

abbrev pub line_size : ℕ
line_size = 1024

-- The variables of the inner loop.
pub record Edit : Type 0 where
  pub line : ℕ → ℕ
  pub position : ℕ
  pub endposition : ℕ
  pub length : ℕ
  pub counter : ℕ
  pub accessedhistory : Bool
  pub input_x : ℕ
  pub input_y : ℕ

-- The loop goes on or ends; or `line` is read or written beyond its bounds, or at an index without a
-- value, or the position falls below 0.
pub data After : Type 0 where
  goes_on : Edit → After
  entered : Edit → After
  overrun unset_index negative_position : After

-- The start of the outer loop.
unfoldable pub fresh : (order input_x input_y : ℕ) → Edit
fresh order input_x input_y = record {
  line = λ _. 0;
  position = 0;
  endposition = 0;
  length = 0;
  counter = order;
  accessedhistory = false;
  input_x = if input_x == win_width - 1 then 1 else input_x;
  input_y = if input_x == win_width - 1 then input_y + 1 else input_y;
}

-- To the next row.
unfoldable pub wrap : Edit → Edit
wrap s = if s.input_x == win_width - 1 then record s { input_x = 1; input_y = s.input_y + 1 } else s

-- `for (i = …; i < endposition; i++) line[i] = line[i+1];` with the rounds that are left.
unfoldable pub shift : (rounds i : ℕ) → (ℕ → ℕ) → ℕ → ℕ
shift zero i line = line
shift (suc n) i line = shift n (i + 1) (update line i (line (i + 1)))

unfoldable pub on_enter : Edit → After
on_enter s =
    if leb line_size s.endposition
    then overrun
    else entered (record s {
      line = update s.line s.endposition newline;
      endposition = s.endposition + 1;
      input_x = 1;
    })

unfoldable pub on_backspace : Edit → After
unfolding shift
on_backspace s =
    if s.input_x == 1
    then goes_on s
    else if s.position == 0
    then negative_position
    else if (s.endposition == 0) || leb line_size s.endposition
    then overrun
    else goes_on (record s {
      line =
          update (shift (s.endposition + 1 - s.position) (s.position - 1) s.line)
            (s.endposition - 1) 0;
      position = s.position - 1;
      endposition = s.endposition - 1;
      input_x = s.input_x - 1;
    })

-- The copy of a former line. If it is empty, `endline` has no value.
unfoldable pub spelled : Chars → ℕ → ℕ
spelled [] i = 0
spelled (c ∷ s) zero = c
spelled (c ∷ s) (suc i) = spelled s i

unfoldable pub recall : Chars → Edit → After
unfolding spelled
recall [] s = unset_index
recall (c ∷ entry) s = goes_on (record s {
  line = spelled (c ∷ entry);
  length = suc (length entry);
  endposition = suc (length entry);
})

-- The counter behind KEY_UP: the first time it stays.
unfoldable pub step_back : (order : ℕ) → Edit → Edit
step_back order s =
    if s.accessedhistory
    then record s { counter = if order == 1 then s.counter else s.counter - 1 }
    else record s { accessedhistory = true }

unfoldable pub on_up : (entries : ℕ → Chars) → (order : ℕ) → Edit → After
on_up entries order s =
    if leb s.counter 1 && not (order == 1)
    then goes_on s
    else (let s' = step_back order s in recall (entries s'.counter) s')

unfoldable pub on_down : (entries : ℕ → Chars) → (order : ℕ) → Edit → After
on_down entries order s =
    if s.counter == order
    then goes_on s
    else recall (entries (s.counter + 1)) (record s { counter = s.counter + 1 })

unfoldable pub on_left : Edit → After
on_left s =
    if s.input_x == 1
    then goes_on s
    else if s.position == 0
    then negative_position
    else goes_on (record s { input_x = s.input_x - 1; position = s.position - 1 })

unfoldable pub on_right : Edit → After
on_right s =
    if s.input_x == s.endposition + 1
    then goes_on s
    else goes_on (record s { input_x = s.input_x + 1; position = s.position + 1 })

unfoldable pub on_char : ℕ → Edit → After
on_char c s =
    if leb line_size s.position
    then overrun
    else goes_on (record s {
      line = update s.line s.position c;
      position = s.position + 1;
      endposition = if ltb s.endposition (s.position + 1) then s.endposition + 1 else s.endposition;
      length = s.length + 1;
      input_x = s.input_x + 1;
    })

-- A round of the inner loop.
unfoldable pub on_key : (entries : ℕ → Chars) → (order : ℕ) → Key → Edit → After
unfolding wrap on_enter on_backspace on_up on_down on_left on_right on_char
on_key entries order enter s = on_enter (wrap s)
on_key entries order backspace s = on_backspace (wrap s)
on_key entries order up s = on_up entries order (wrap s)
on_key entries order down s = on_down entries order (wrap s)
on_key entries order left s = on_left (wrap s)
on_key entries order right s = on_right (wrap s)
on_key entries order (char c) s = on_char c (wrap s)

-- The inner loop, for the keys that are pressed.
unfoldable pub on_keys : (entries : ℕ → Chars) → (order : ℕ) → List Key → Edit → After
unfolding on_key
on_keys entries order [] s = goes_on s
on_keys entries order (k ∷ ks) s = elim (on_key entries order k s) [
  | goes_on s' ↦ on_keys entries order ks s'
  | entered s' ↦ entered s'
  | overrun ↦ overrun
  | unset_index ↦ unset_index
  | negative_position ↦ negative_position
]
