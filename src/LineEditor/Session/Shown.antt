-- ===== src/LineEditor/Session/Shown.antt =====
-- What a session of hw5-jli230-main/C/dsh_main.c shows and runs.
use mathlib.Core.List.{append_assoc, append-nil}
use cs361_projects.Prelude.{
  ℕ, zero, suc, ◌+◌, ◌<◌, ◌≡◌, refl, sym, ap, ◌∙◌, subst, false, inl, inr, List, [], ◌∷◌, ◌++◌, map,
  arith, leb, Bool-cases, All, length, length-append,
}
use cs361_projects.Prelude.Links.{update, update_self}
use cs361_projects.Prelude.Text.{Chars}
use cs361_projects.LineEditor.{Key, enter, line_size, Edit, entered, fresh, on_keys}
use cs361_projects.LineEditor.Lines.{on_keys-press_all}
use cs361_projects.LineEditor.Session.{
  Session, still_typing, entries_size, temp_size, opened, Effect, runs, shows_file, shows_history,
  Run, ok, bad_access, ◌>>=◌, copied, up_to_newline, history, hand_on, round, rounds,
}
use cs361_projects.LineEditor.Session.Typed.{
  IsLine, line_of, copied-slice, length-slice, line_of-Lacks, length-line_of,
}

-- One entry more behind those that are shown.
shown_first :
    (o : Run (List Chars)) (p : Chars) (xs : List Chars)
    → (o >>= λ lines. ok (p ∷ lines)) ≡ ok xs
    → (ys : List Chars) × (o ≡ ok ys) × (xs ≡ p ∷ ys)
shown_first (ok ys) p xs e = (ys, refl, cc e)
shown_first still_typing p xs e = absurd (cc e)
shown_first bad_access p xs e = absurd (cc e)

history-cons :
    (n i : ℕ) (ptr : ℕ → Chars) (xs : List Chars)
    → leb entries_size i ≡ false
    → leb temp_size (length (ptr i)) ≡ false
    → history n (i + 1) ptr ≡ ok xs
    → history (suc n) i ptr ≡ ok (ptr i ∷ xs)
unfolding history
history-cons n i ptr xs room short rest = rw (history, room, short, rest) refl

history-snoc :
    (n i : ℕ) (ptr : ℕ → Chars) (t : Chars) (xs : List Chars)
    → i + n < entries_size
    → length t < temp_size
    → history n i ptr ≡ ok xs
    → history (suc n) i (update ptr (i + n) t) ≡ ok (xs ++ t ∷ [])
unfolding history
history-snoc zero i ptr t xs lt few h =
    let here : i + 0 ≡ i = omega arith in
    let room : leb entries_size i ≡ false = ground (arith, lt) in
    let own : update ptr i t i ≡ t = update_self ptr i t in
    let short : leb temp_size (length (update ptr i t i)) ≡ false = rw own (ground (arith, few)) in
    let none_yet : xs ≡ [] = cc h in
    rw (here, none_yet)
      (history-cons zero i (update ptr i t) [] room short refl ∙ ap (λ z. ok (z ∷ [])) own)
history-snoc (suc n) i ptr t xs lt few h =
    let room : leb entries_size i ≡ false = ground (arith, lt) in
    let ptr' = update ptr (i + suc n) t in
    let own : ptr' i ≡ ptr i = ground arith in
    let there : i + 1 + n ≡ i + suc n = omega arith in
    elim (Bool-cases (leb temp_size (length (ptr i)))) [
      | inl long ↦ absurd (cc (rw (room, long) at h))
      | inr short ↦
          let (ys, rest, e) =
            shown_first (history n (i + 1) ptr) (ptr i) xs (rw (room, short) at h) in
          let more : history (suc n) (i + 1) ptr' ≡ ok (ys ++ t ∷ []) =
            rw there at (history-snoc n (i + 1) ptr t ys (omega arith) few rest) in
          rw e (
            history-cons (suc n) i ptr' (ys ++ t ∷ []) room (rw own short) more
            ∙ ap (λ z. ok (z ∷ ys ++ t ∷ [])) own)
    ]

-- The variables behind a line.
abbrev next : Session → Edit → Chars → Session
next st s t = record {
  order = st.order + 1;
  latest = st.latest + 1;
  filecount = st.filecount + 1;
  ptr = update st.ptr (st.latest + 1) t;
  input_x = s.input_x;
  input_y = s.input_y;
}

hand_on_lem :
    (st : Session) (s : Edit) (t : Chars) (shown : List Chars)
    → copied line_size 0 s.line ≡ ok t
    → st.latest ≡ st.order
    → st.order + 1 < entries_size
    → length t < temp_size
    → history (st.order + 1) 0 st.ptr ≡ ok shown
    → hand_on st s
      ≡ ok (next st s t, runs t ∷ shows_file st.filecount ∷ shows_history (shown ++ t ∷ []) ∷ [])
unfolding hand_on
hand_on_lem st s t shown c latest lt few h =
    let room : leb entries_size (st.latest + 1) ≡ false = ground (arith, lt, latest) in
    let size : st.order + 2 ≡ suc (st.order + 1) = omega arith in
    let place : st.latest + 1 ≡ 0 + (st.order + 1) = omega (arith, latest) in
    let all = history-snoc (st.order + 1) 0 st.ptr t shown (omega (arith, lt)) few h in
    rw (c, room, size, place, all) refl

-- What a session tells, for lines that come behind others.
abbrev pub told : (before lines : List Chars) → List Effect
told before [] = []
told before (t ∷ lines) =
    runs t
    ∷ shows_file (length before)
    ∷ shows_history ([] ∷ before ++ t ∷ [])
    ∷ told (before ++ t ∷ []) lines

-- The variables behind some lines.
pub record Kept (before : List Chars) (st : Session) : Type 0 where
  pub order : st.order ≡ length before
  pub latest : st.latest ≡ length before
  pub filecount : st.filecount ≡ length before
  pub former : history (length before + 1) 0 st.ptr ≡ ok ([] ∷ before)
  pub column : st.input_x ≡ 1

round-entered :
    (keys : List Key) (st : Session) (s : Edit)
    → on_keys (λ i. up_to_newline (st.ptr i)) st.order keys (fresh st.order st.input_x st.input_y)
      ≡ entered s
    → round keys st ≡ hand_on st s
unfolding round
round-entered keys st s e = rw (round, e) refl

-- A round of the outer loop.
round-Kept :
    (before : List Chars) (keys : List Key) (st : Session)
    → Kept before st
    → IsLine keys
    → length before + 1 < entries_size
    → (st' : Session) × (round (keys ++ enter ∷ []) st
        ≡ ok (
          st',
          runs (line_of keys)
              ∷ shows_file (length before)
              ∷ shows_history ([] ∷ before ++ line_of keys ∷ [])
              ∷ [],
        ))
      × Kept (before ++ line_of keys ∷ []) st'
round-Kept before keys st h l lt =
    let t : Chars = line_of keys in
    let (s, done, text, zero_behind, column) =
      on_keys-press_all (λ i. up_to_newline (st.ptr i)) st.order st.input_y keys l.editing l.few in
    let typed =
      subst
        (λ x.
          on_keys (λ i. up_to_newline (st.ptr i)) st.order (keys ++ enter ∷ [])
            (fresh st.order x st.input_y)
          ≡ entered s)
        (sym h.column) done in
    let size : s.endposition ≡ length t =
      sym (length-slice s.endposition 0 s.line) ∙ ap length text in
    let start : 0 + s.endposition ≡ s.endposition = omega arith in
    let whole : copied line_size 0 s.line ≡ ok t =
      copied-slice line_size s.endposition 0 s.line (omega (arith, size, length-line_of keys l))
        (rw text (line_of-Lacks keys l)) (ap s.line start ∙ zero_behind)
      ∙ ap ok text in
    let former : history (st.order + 1) 0 st.ptr ≡ ok ([] ∷ before) = rw h.order h.former in
    let handed =
      hand_on_lem st s t ([] ∷ before) whole (h.latest ∙ sym h.order) (omega (arith, lt, h.order))
        (omega (arith, length-line_of keys l)) former in
    let longer : length (before ++ t ∷ []) ≡ length before + 1 = length-append before (t ∷ []) in
    let size' : length (before ++ t ∷ []) + 1 ≡ suc (length before + 1) = omega (arith, longer) in
    let place : st.latest + 1 ≡ 0 + (length before + 1) = omega (arith, h.latest) in
    let former' : history (length (before ++ t ∷ []) + 1) 0 (update st.ptr (st.latest + 1) t)
        ≡ ok ([] ∷ before ++ t ∷ []) =
      rw (size', place)
        (history-snoc (length before + 1) 0 st.ptr t ([] ∷ before) (omega (arith, lt))
          (omega (arith, length-line_of keys l)) h.former) in
    (
      next st s t,
      round-entered (keys ++ enter ∷ []) st s typed
          ∙ (handed
              ∙ ap
                  (λ n. ok (
                    next st s t,
                    runs t ∷ shows_file n ∷ shows_history ([] ∷ before ++ t ∷ []) ∷ [],
                  ))
                  h.filecount),
      record {
        order = omega (arith, h.order, longer);
        latest = omega (arith, h.latest, longer);
        filecount = omega (arith, h.filecount, longer);
        former = former';
        column = column;
      },
    )

rounds-Kept :
    (before : List Chars) (lines : List (List Key)) (st : Session)
    → Kept before st
    → All IsLine lines
    → length before + length lines < entries_size
    → (st' : Session) × (rounds (map (λ keys. keys ++ enter ∷ []) lines) st
        ≡ ok (st', told before (map line_of lines)))
      × Kept (before ++ map line_of lines) st'
unfolding rounds
rounds-Kept before [] st h l lt = (st, refl, rw (append-nil before) h)
rounds-Kept before (keys ∷ lines) st h l lt =
    let t : Chars = line_of keys in
    let longer : length (before ++ t ∷ []) ≡ length before + 1 = length-append before (t ∷ []) in
    let (st₁, first, h₁) = round-Kept before keys st h l.0 (omega (arith, lt)) in
    let (st₂, rest, h₂) =
      rounds-Kept (before ++ t ∷ []) lines st₁ h₁ l.1 (omega (arith, lt, longer)) in
    let joined : (before ++ t ∷ []) ++ map line_of lines ≡ before ++ t ∷ map line_of lines =
      append_assoc before (t ∷ []) (map line_of lines) in
    (st₂, rw (first, rest) refl, subst (λ ls. Kept ls st₂) joined h₂)

-- For at most 99 lines, each of bytes that are not zero, Backspace, Left and Right, with fewer than 63
-- bytes among them, and then Enter: the session runs every line as it was edited, with its newline, and
-- behind each line it shows the output file of the line's number and all lines up to this one, in
-- order; no memory is accessed out of bounds.
pub rounds-told :
    (lines : List (List Key))
    → All IsLine lines
    → length lines < entries_size
    → (st : Session) × (rounds (map (λ keys. keys ++ enter ∷ []) lines) opened
        ≡ ok (st, told [] (map line_of lines)))
      × Kept (map line_of lines) st
unfolding history
rounds-told lines l lt =
    rounds-Kept [] lines opened
      (record { order = refl; latest = refl; filecount = refl; former = refl; column = refl }) l
      (omega (arith, lt))
