-- ===== src/LineEditor/Folder.antt =====
-- The search for the session's folder in hw5-jli230-main/C/dsh_main.c, behind the one in
-- hw4-jli230-main/C/dsh.c that has made it.
use cs361_projects.Prelude.{
  ℕ, zero, suc, ◌+◌, ◌<◌, ◌≤◌, ◌≡◌, ◌∙◌, refl, Bool, true, false, not, arith,
}
use cs361_projects.Prelude.Int.{ℤ, pos, ◌-ℤ◌}
use cs361_projects.Prelude.Links.{update}
use cs361_projects.Shell.{Run, ok, out_of_fuel}
use cs361_projects.Shell.Session.{session_folder, session_folder-first}

-- The loop over the folders `.dsh/0`, `.dsh/1` and so on: the one before the first that `opendir` does
-- not open. `opened` says whether it does; the rounds are fuel.
unfoldable pub find_folder : ℕ → (opened : ℕ → Bool) → (counter : ℕ) → Run ℤ
find_folder zero opened counter = out_of_fuel
find_folder (suc k) opened counter = elim (opened counter) [
  | true ↦ find_folder k opened (counter + 1)
  | false ↦ ok (pos counter -ℤ pos 1)
]

find_folder-last :
    (k n i : ℕ) (opened : ℕ → Bool)
    → n < k
    → ((j : ℕ) → i ≤ j → j < i + n → opened j ≡ true)
    → opened (i + n) ≡ false
    → find_folder k opened i ≡ ok (pos (i + n) -ℤ pos 1)
unfolding find_folder
find_folder-last zero n i opened lt before here = elim lt [ ]
find_folder-last (suc k) zero i opened lt before here =
    let e : i + 0 ≡ i = omega arith in rw e (rw (find_folder, rw e at here) refl)
find_folder-last (suc k) (suc n) i opened lt before here =
    let e : i + suc n ≡ i + 1 + n = omega arith in
    rw (e, find_folder, before i (omega arith) (omega arith))
      (find_folder-last k n (i + 1) opened (omega arith)
        (λ j low high. before j (omega arith) (omega arith)) (rw e at here))

-- `dsh_init` comes as an object file. As `main` in hw4-jli230-main/C/dsh.c does, it makes the first folder
-- that is not there.
abbrev pub MakesOne : ((ℕ → Bool) → ℕ → Bool) → Type 0
MakesOne dsh_init =
    (taken : ℕ → Bool) (n : ℕ)
    → ((j : ℕ) → j < n → taken j ≡ true)
    → taken n ≡ false
    → (j : ℕ) → dsh_init taken j ≡ update taken n true j

-- When the folders below n are taken, and n and the two behind it are not, with fuel above n + 2, and a
-- `dsh_init` that makes the first folder which is not there: dsh.c makes folder n for its session, and
-- dsh_main.c, started behind it, finds the folder n + 1 that its own `dsh_init` has made.
pub find_folder-dsh_init :
    (dsh_init : (ℕ → Bool) → ℕ → Bool) (k n : ℕ) (taken : ℕ → Bool)
    → MakesOne dsh_init
    → n + 2 < k
    → ((j : ℕ) → j < n → taken j ≡ true)
    → taken n ≡ false
    → taken (n + 1) ≡ false
    → taken (n + 2) ≡ false
    → (session_folder k (λ j. not (taken j)) 0 ≡ ok n)
      × (find_folder k (dsh_init (update taken n true)) 0 ≡ ok (pos (n + 1)))
unfolding ◌-ℤ◌
find_folder-dsh_init dsh_init k n taken makes enough before free next behind =
    let here : 0 + n ≡ n = omega arith in
    let end : 0 + (n + 2) ≡ n + 2 = omega arith in
    let less : pos (n + 2) -ℤ pos 1 ≡ pos (n + 1) = ground arith in
    let made : (j : ℕ)
        → dsh_init (update taken n true) j ≡ update (update taken n true) (n + 1) true j =
      makes (update taken n true) (n + 1) (λ j low. ground (arith, before j))
        (ground (arith, next)) in
    (
      rw here at (
          session_folder-first k n 0 (λ j. not (taken j)) (omega (arith, enough))
            (λ j low high. ground (arith, before j)) (rw (here, free) refl)),
      rw (end, less) at
          (find_folder-last k (n + 2) 0 (dsh_init (update taken n true)) enough
            (λ j low high. made j ∙ ground (arith, before j))
            (rw end (made (n + 2) ∙ ground (arith, behind)))),
    )
