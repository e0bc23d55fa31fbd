-- ===== src/LineEditor/Examples.antt =====
-- The theorems on dsh_main.c at concrete inputs.
use cs361_projects.Prelude.{
  Bool, zero, suc, ◌&&◌, ◌||◌, ◌<◌, subst, ltb→lt, inl, inr, false, ==_iff, Bool-cases, ◌==◌, ℕ,
  ◌≡◌, ◌≢◌, refl, true, not, List, [], ◌∷◌, ◌++◌, arith, if◌then◌else◌, ltb,
}
use cs361_projects.Prelude.Int.{pos}
use cs361_projects.Prelude.Links.{update}
use cs361_projects.Prelude.Text.{Chars}
use cs361_projects.LineEditor.{
  Key, char, enter, backspace, up, down, left, negative_position, fresh, on_keys,
}
use cs361_projects.LineEditor.Typing.{press, press_all}
use cs361_projects.LineEditor.Lines.{Handed, written, on_keys-press_all}
use cs361_projects.LineEditor.History.{on_keys-Agree}
use cs361_projects.LineEditor.Recall.{HandsOn, on_keys-browse}
use cs361_projects.LineEditor.Folder.{find_folder, find_folder-dsh_init, MakesOne}
use cs361_projects.Shell
use cs361_projects.Shell.Session.{session_folder}

-- Three former lines: `a`, `bb` and `cc`.
abbrev entries : ℕ → Chars
entries n = if n == 1 then b'a' ∷ [] else if n == 2 then b'b' ∷ b'b' ∷ [] else b'c' ∷ b'c' ∷ []

-- `lz`, back, `s` over the `z`, `x`, and the `x` away again.
abbrev keys : List Key
keys = char b'l' ∷ char b'z' ∷ left ∷ char b's' ∷ char b'x' ∷ backspace ∷ []

on_keys-press_all_example :
    Handed
      (on_keys entries 3 (keys ++ enter ∷ []) (fresh 3 1 5))
      (record { before = b's' ∷ b'l' ∷ []; behind = [] })
unfolding press_all press written
on_keys-press_all_example =
    on_keys-press_all entries 3 5 keys (tt, (tt, (tt, (tt, (tt, (tt, tt)))))) (omega arith)

on_keys-Agree_example :
    (on_keys entries 2 (up ∷ up ∷ down ∷ left ∷ []) (fresh 2 1 5) ≢ negative_position)
    × (on_keys entries 2 (up ∷ up ∷ down ∷ left ∷ []) (fresh 2 1 5)
        ≡ on_keys (update entries 3 []) 2 (up ∷ up ∷ down ∷ left ∷ []) (fresh 2 1 5))
on_keys-Agree_example =
    on_keys-Agree entries (update entries 3 []) 2 5 (up ∷ up ∷ down ∷ left ∷ [])
      (λ i low high. ground (arith, low, high))

on_keys-browse_example :
    HandsOn (on_keys entries 3 (up ∷ up ∷ enter ∷ []) (fresh 3 1 5)) (b'b' ∷ b'b' ∷ [])
on_keys-browse_example =
    on_keys-browse entries 3 1 2 5 (omega arith) refl (λ j low high. ground (arith, low, high))
      (omega arith)

-- Two sessions so far, in the folders 0 and 1.
-- A `dsh_init`: the folder below which all are there.
abbrev all_below : ℕ → (ℕ → Bool) → Bool
all_below zero taken = true
all_below (suc j) taken = taken j && all_below j taken

abbrev first_missing : (ℕ → Bool) → ℕ → Bool
first_missing taken j = taken j || all_below j taken

all_below-true :
    (j : ℕ) (taken : ℕ → Bool) → ((i : ℕ) → i < j → taken i ≡ true) → all_below j taken ≡ true
all_below-true zero taken h = refl
all_below-true (suc j) taken h =
    rw (h j (omega arith), all_below-true j taken (λ i lt. h i (omega arith))) refl

all_below-false : (j n : ℕ) (taken : ℕ → Bool) → n < j → taken n ≡ false → all_below j taken ≡ false
all_below-false zero n taken lt free = absurd (omega arith)
all_below-false (suc j) n taken lt free = elim (Bool-cases (n == j)) [
  | inl here ↦
      let e : n ≡ j = (==_iff n j).0 here in
      let unmade : taken j ≡ false = subst (λ i. taken i ≡ false) e free in rw unmade refl
  | inr apart ↦ ground (arith, all_below-false j n taken)
]

first_missing-MakesOne : MakesOne first_missing
first_missing-MakesOne taken n before free j = elim (Bool-cases (n == j)) [
  | inl here ↦
      let e : n ≡ j = (==_iff n j).0 here in
      let all : all_below j taken ≡ true =
        subst (λ i. all_below i taken ≡ true) e (all_below-true n taken before) in
      rw (here, all) (ground arith)
  | inr apart ↦ elim (Bool-cases (ltb j n)) [
    | inl low ↦
        let there : taken j ≡ true = before j (omega (arith, ltb→lt j n low)) in
        rw (apart, there) refl
    | inr high ↦
        let gap : all_below j taken ≡ false =
          all_below-false j n taken (ground (arith, apart)) free in
        rw (apart, gap) (ground arith)
  ]
]

find_folder-dsh_init_example :
    (session_folder 6 (λ j. not (ltb j 2)) 0 ≡ Shell.ok 2)
    × (find_folder 6 (first_missing (update (λ j. ltb j 2) 2 true)) 0 ≡ Shell.ok (pos 3))
find_folder-dsh_init_example =
    find_folder-dsh_init first_missing 6 2 (λ j. ltb j 2) first_missing-MakesOne (omega arith)
      (λ j low. ground (arith, low)) refl refl refl
