-- ===== src/LineEditor/History.antt =====
-- Former lines in the inner loop of hw5-jli230-main/C/dsh_main.c.
use cs361_projects.Prelude.{
  ℕ, ◌+◌, ◌-◌, ◌<◌, ◌≤◌, ◌≡◌, ◌≢◌, refl, ap, inl, inr, false, ◌&&◌, not, List, [], ◌∷◌, arith, ◌==◌,
  leb, Bool-cases,
}
use cs361_projects.Prelude.Text.{Chars}
use cs361_projects.LineEditor.{
  Key, char, enter, backspace, up, down, left, right, win_width, Edit, After, goes_on, entered,
  overrun, unset_index, negative_position, fresh, wrap, recall, step_back, on_enter, on_backspace,
  on_up, on_down, on_left, on_right, on_char, on_key, on_keys,
}

-- The column is not left of the first, nor ahead of the position; the counter names a former line, if
-- there is one.
pub record IsSound (order : ℕ) (s : Edit) : Type 0 where
  pub column : 1 ≤ s.input_x
  pub ahead : s.input_x ≤ s.position + 1
  pub within : s.counter ≤ order
  pub counted : 0 < order → 0 < s.counter

abbrev pub Sound : ℕ → After → Type 0
Sound order (goes_on s) = IsSound order s
Sound order (entered s) = Unit
Sound order overrun = Unit
Sound order unset_index = Unit
Sound order negative_position = ⊥

wrap-IsSound : (order : ℕ) (s : Edit) → IsSound order s → IsSound order (wrap s)
unfolding wrap
wrap-IsSound order s h = elim (Bool-cases (s.input_x == win_width - 1)) [
  | inl last ↦
      rw last (record {
        column = omega arith;
        ahead = omega arith;
        within = h.within;
        counted = h.counted;
      })
  | inr inside ↦ rw inside h
]

recall-Sound :
    (order : ℕ) (entry : Chars) (s : Edit) → IsSound order s → Sound order (recall entry s)
unfolding recall
recall-Sound order [] s h = tt
recall-Sound order (c ∷ entry) s h = record {
  column = h.column;
  ahead = h.ahead;
  within = h.within;
  counted = h.counted;
}

on_left-Sound : (order : ℕ) (s : Edit) → IsSound order s → Sound order (on_left s)
unfolding on_left
on_left-Sound order s h = ground (arith, h.counted)

on_right-Sound : (order : ℕ) (s : Edit) → IsSound order s → Sound order (on_right s)
unfolding on_right
on_right-Sound order s h = ground (arith, h.counted)

on_enter-Sound : (order : ℕ) (s : Edit) → IsSound order s → Sound order (on_enter s)
unfolding on_enter
on_enter-Sound order s h = ground (arith, h.counted)

on_backspace-Sound : (order : ℕ) (s : Edit) → IsSound order s → Sound order (on_backspace s)
unfolding on_backspace
on_backspace-Sound order s h = ground (arith, h.counted)

on_char-Sound : (order : ℕ) (c : ℕ) (s : Edit) → IsSound order s → Sound order (on_char c s)
unfolding on_char
on_char-Sound order c s h = ground (arith, h.counted)

step_back-IsSound :
    (order : ℕ) (s : Edit)
    → IsSound order s
    → (leb s.counter 1 && not (order == 1)) ≡ false
    → IsSound order (step_back order s)
unfolding step_back
step_back-IsSound order s h more = record {
  column = ground (arith, h.column);
  ahead = ground (arith, h.ahead);
  within = ground (arith, h.within);
  counted = λ some_lines. ground (arith, h.counted some_lines);
}

on_up-Sound :
    (entries : ℕ → Chars) (order : ℕ) (s : Edit)
    → IsSound order s
    → Sound order (on_up entries order s)
unfolding on_up
on_up-Sound entries order s h = elim (Bool-cases (leb s.counter 1 && not (order == 1))) [
  | inl first ↦ rw first h
  | inr more ↦
      let h' : IsSound order (step_back order s) = step_back-IsSound order s h more in
      rw more (recall-Sound order (entries (step_back order s).counter) (step_back order s) h')
]

on_down-Sound :
    (entries : ℕ → Chars) (order : ℕ) (s : Edit)
    → IsSound order s
    → Sound order (on_down entries order s)
unfolding on_down
on_down-Sound entries order s h = elim (Bool-cases (s.counter == order)) [
  | inl last ↦ rw last h
  | inr earlier ↦
      let next : Edit = record s { counter = s.counter + 1 } in
      let h' : IsSound order next = record {
        column = h.column;
        ahead = h.ahead;
        within = ground (arith, h.within);
        counted = λ some_lines. omega arith;
      } in
      rw earlier (recall-Sound order (entries (s.counter + 1)) next h')
]

on_key-Sound :
    (entries : ℕ → Chars) (order : ℕ) (k : Key) (s : Edit)
    → IsSound order s
    → Sound order (on_key entries order k s)
unfolding on_key
on_key-Sound entries order enter s h = on_enter-Sound order (wrap s) (wrap-IsSound order s h)
on_key-Sound entries order backspace s h =
    on_backspace-Sound order (wrap s) (wrap-IsSound order s h)
on_key-Sound entries order up s h = on_up-Sound entries order (wrap s) (wrap-IsSound order s h)
on_key-Sound entries order down s h = on_down-Sound entries order (wrap s) (wrap-IsSound order s h)
on_key-Sound entries order left s h = on_left-Sound order (wrap s) (wrap-IsSound order s h)
on_key-Sound entries order right s h = on_right-Sound order (wrap s) (wrap-IsSound order s h)
on_key-Sound entries order (char c) s h = on_char-Sound order c (wrap s) (wrap-IsSound order s h)

-- The same former lines.
abbrev pub Agree : ℕ → (ℕ → Chars) → (ℕ → Chars) → Type 0
Agree order e e' = (i : ℕ) → 0 < i → i ≤ order → e i ≡ e' i

on_up-Agree :
    (e e' : ℕ → Chars) (order : ℕ) (s : Edit)
    → IsSound order s
    → Agree order e e'
    → on_up e order s ≡ on_up e' order s
unfolding on_up
on_up-Agree e e' order s h same = elim (Bool-cases (leb s.counter 1 && not (order == 1))) [
  | inl first ↦ rw first refl
  | inr more ↦
      let h' : IsSound order (step_back order s) = step_back-IsSound order s h more in
      let entry : e (step_back order s).counter ≡ e' (step_back order s).counter =
        same (step_back order s).counter (h'.counted (ground (arith, more, h.within))) h'.within in
      rw more (ap (λ z. recall z (step_back order s)) entry)
]

on_down-Agree :
    (e e' : ℕ → Chars) (order : ℕ) (s : Edit)
    → IsSound order s
    → Agree order e e'
    → on_down e order s ≡ on_down e' order s
unfolding on_down
on_down-Agree e e' order s h same = elim (Bool-cases (s.counter == order)) [
  | inl last ↦ rw last refl
  | inr earlier ↦ rw earlier (
      ap (λ z. recall z (record s { counter = s.counter + 1 }))
        (same (s.counter + 1) (omega arith) (ground (arith, earlier, h.within))))
]

on_key-Agree :
    (e e' : ℕ → Chars) (order : ℕ) (k : Key) (s : Edit)
    → IsSound order s
    → Agree order e e'
    → on_key e order k s ≡ on_key e' order k s
unfolding on_key
on_key-Agree e e' order up s h same = on_up-Agree e e' order (wrap s) (wrap-IsSound order s h) same
on_key-Agree e e' order down s h same =
    on_down-Agree e e' order (wrap s) (wrap-IsSound order s h) same
on_key-Agree e e' order _ s h same = refl

-- The outcome of a run, with two sets of former lines.
abbrev pub Unmoved : ℕ → (o o' : After) → Type 0
Unmoved order o o' = Sound order o × (o ≡ o')

on_keys-Unmoved :
    (e e' : ℕ → Chars) (order : ℕ) (ks : List Key) (s : Edit)
    → IsSound order s
    → Agree order e e'
    → Unmoved order (on_keys e order ks s) (on_keys e' order ks s)
unfolding on_keys
on_keys-Unmoved e e' order [] s h same = (h, refl)
on_keys-Unmoved e e' order (k ∷ ks) s h same =
    rw (on_keys, ← on_key-Agree e e' order k s h same)
      (both (λ s' g. on_keys-Unmoved e e' order ks s' g same) (on_key e order k s)
        (on_key-Sound e order k s h))
  where
    after : (ℕ → Chars) → After → After
    after f o = elim o [
      | goes_on s' ↦ on_keys f order ks s'
      | entered s' ↦ entered s'
      | overrun ↦ overrun
      | unset_index ↦ unset_index
      | negative_position ↦ negative_position
    ]

    both :
        ((s' : Edit)
          → IsSound order s'
          → Unmoved order (on_keys e order ks s') (on_keys e' order ks s'))
        → (o : After) → Sound order o
        → Unmoved order (after e o) (after e' o)
    both ih (goes_on s') g = ih s' g
    both ih (entered s') g = (tt, refl)
    both ih overrun g = (tt, refl)
    both ih unset_index g = (tt, refl)
    both ih negative_position g = absurd g

Sound-ne : (order : ℕ) (o : After) → Sound order o → o ≢ negative_position
Sound-ne order o h e = rw e at h

-- For any keys on a fresh line, the position does not fall below 0, and the outcome depends on
-- no former lines but those numbered from 1 to `order`.
pub on_keys-Agree :
    (e e' : ℕ → Chars) (order y : ℕ) (ks : List Key)
    → Agree order e e'
    → (on_keys e order ks (fresh order 1 y) ≢ negative_position)
      × (on_keys e order ks (fresh order 1 y) ≡ on_keys e' order ks (fresh order 1 y))
unfolding fresh
on_keys-Agree e e' order y ks same =
    let first : IsSound order (fresh order 1 y) = record {
      column = omega arith;
      ahead = omega arith;
      within = omega arith;
      counted = λ some_lines. some_lines;
    } in
    let (sound, equal) = on_keys-Unmoved e e' order ks (fresh order 1 y) first same in
    (Sound-ne order (on_keys e order ks (fresh order 1 y)) sound, equal)
