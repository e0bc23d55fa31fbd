-- ===== src/LineEditor/Session.antt =====
-- The outer loop of `main` in hw5-jli230-main/C/dsh_main.c: one line after the other, which is stored,
-- handed to the shell and shown with the former ones.
-- A stored line is the list of its bytes before the zero byte. A line with a zero byte in front of its
-- newline would be read beyond its end when it is recalled; the model takes it as it is. What
-- `dsh_run` does with a line, and what `printStat` finds in the file, is left open.
mod Examples
pub mod Typed
pub mod Shown
use cs361_projects.Prelude.{
  ℕ, zero, suc, ◌+◌, Bool, true, false, none, some, List, [], ◌∷◌, ◌++◌, ◌==◌, leb, length,
  if◌then◌else◌,
}
use cs361_projects.Prelude.Links.{update}
use cs361_projects.Prelude.Text.{Chars, cut}
use cs361_projects.LineEditor.{
  Key, newline, line_size, Edit, After, goes_on, entered, overrun, unset_index, negative_position,
  fresh, on_keys,
}

-- The numbers of places in `ptr` of `main`, and in `temp` of `printHistory`.
abbrev pub entries_size : ℕ
entries_size = 100

abbrev pub temp_size : ℕ
temp_size = 100

-- The variables of the outer loop.
pub record Session : Type 0 where
  pub order : ℕ
  pub latest : ℕ
  pub filecount : ℕ
  pub ptr : ℕ → Chars
  pub input_x : ℕ
  pub input_y : ℕ

-- In front of the loop: no former lines.
abbrev pub opened : Session
opened = record { order = 0; latest = 0; filecount = 0; ptr = λ _. []; input_x = 1; input_y = 1 }

-- `dsh_run`, `printStat` with the file of a number, and the lines that `printHistory` prints.
pub data Effect : Type 0 where
  runs : Chars → Effect
  shows_file : ℕ → Effect
  shows_history : List Chars → Effect

-- The loop goes on, the line has not been entered yet, or memory is accessed out of bounds.
pub data Run {ℓ} (A : Type ℓ) : Type ℓ where
  ok : A → Run A
  still_typing bad_access : Run A

infixl 5 ◌>>=◌
abbrev pub ◌>>=◌ {ℓ κ} : {A : Type ℓ} {B : Type κ} → Run A → (A → Run B) → Run B
◌>>=◌ (ok a) f = f a
◌>>=◌ still_typing f = still_typing
◌>>=◌ bad_access f = bad_access

-- What `strcpy` copies of `line` from an index on, with `n` places left.
unfoldable pub copied : (n i : ℕ) → (ℕ → ℕ) → Run Chars
copied zero i line = bad_access
copied (suc n) i line =
    let rest = copied n (i + 1) line in
    elim (line i == 0) [ true ↦ ok [] | false ↦ rest >>= λ t. ok (line i ∷ t) ]

-- A former line up to its newline, as the inner loop reads it.
unfoldable pub up_to_newline : Chars → Chars
up_to_newline t = elim (cut newline t) [ none ↦ t | some f ↦ f.0 ]

-- The loop of `printHistory`, with `n` rounds left at `i`: each line is copied into `temp`.
unfoldable pub history : (n i : ℕ) → (ℕ → Chars) → Run (List Chars)
history zero i ptr = ok []
history (suc n) i ptr =
    let rest = history n (i + 1) ptr in
    if leb entries_size i
    then bad_access
    else if leb temp_size (length (ptr i))
    then bad_access
    else (rest >>= λ lines. ok (ptr i ∷ lines))

-- Behind the inner loop.
unfoldable pub hand_on : Session → Edit → Run (Session × List Effect)
hand_on st s = do
  line ← copied line_size 0 s.line
  let latest = st.latest + 1
  let ptr = update st.ptr latest line
  lines ← if leb entries_size latest then bad_access else history (st.order + 2) 0 ptr
  ok (
    record {
      order = st.order + 1;
      latest = latest;
      filecount = st.filecount + 1;
      ptr = ptr;
      input_x = s.input_x;
      input_y = s.input_y;
    },
    runs line ∷ shows_file st.filecount ∷ shows_history lines ∷ [],
  )

-- A round of the outer loop, for the keys that are pressed in it.
unfoldable pub round : List Key → Session → Run (Session × List Effect)
round keys st =
    elim (on_keys (λ i. up_to_newline (st.ptr i)) st.order keys
      (fresh st.order st.input_x st.input_y)) [
        | goes_on _ ↦ still_typing
        | entered s ↦ hand_on st s
        | overrun ↦ bad_access
        | unset_index ↦ bad_access
        | negative_position ↦ bad_access
      ]

unfoldable pub rounds : List (List Key) → Session → Run (Session × List Effect)
rounds [] st = ok (st, [])
rounds (keys ∷ more) st = do r ← round keys st; q ← rounds more r.0; ok (q.0, r.1 ++ q.1)
