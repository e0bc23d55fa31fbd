-- ===== src/Shell/Session.antt =====
-- `main` of hw4-jli230-main/C/dsh.c: the folder of a session, and the lines of its input.
use cs361_projects.Prelude.{
  ℕ, zero, suc, ◌+◌, ◌<◌, ◌≤◌, ◌≡◌, refl, ap, Bool, true, false, List, [], ◌∷◌, ◌++◌, arith, length,
  All,
}
use cs361_projects.Prelude.Text.{Chars}
use cs361_projects.Shell.{dev_null, Job, Shell, Run, ok, out_of_fuel, ◌>>=◌, run}
use cs361_projects.Shell.Lines.{Script, IsScript, text, jobs, bars, run-text}

-- The loop over the folders `.dsh/0`, `.dsh/1` and so on: the first one that `mkdir` makes.
-- `made` says whether it does; the rounds are fuel.
unfoldable pub session_folder : ℕ → (made : ℕ → Bool) → (counter : ℕ) → Run ℕ
session_folder zero made counter = out_of_fuel
session_folder (suc k) made counter = elim (made counter) [
  | true ↦ ok counter
  | false ↦ session_folder k made (counter + 1)
]

-- The first folder that can be made is found, with fuel for the ones before it.
pub session_folder-first :
    (k n i : ℕ) (made : ℕ → Bool)
    → n < k
    → ((j : ℕ) → i ≤ j → j < i + n → made j ≡ false)
    → made (i + n) ≡ true
    → session_folder k made i ≡ ok (i + n)
unfolding session_folder
session_folder-first zero n i made lt before here = elim lt [ ]
session_folder-first (suc k) zero i made lt before here =
    let e : i + 0 ≡ i = omega arith in rw e (rw (session_folder, rw e at here) refl)
session_folder-first (suc k) (suc n) i made lt before here =
    let e : i + suc n ≡ i + 1 + n = omega arith in
    rw (e, session_folder, before i (omega arith) (omega arith))
      (session_folder-first k n (i + 1) made (omega arith)
        (λ j low high. before j (omega arith) (omega arith)) (rw e at here))

-- `line[strlen(line)-1]=0`
unfoldable pub drop_last : Chars → Chars
drop_last [] = []
drop_last (c ∷ []) = []
drop_last (c ∷ d ∷ s) = c ∷ drop_last (d ∷ s)

-- The loop over the lines that `getline` gives, none of them empty: for each the number of the files
-- that take its output, and its jobs. They read `/dev/null`, and standard input is put back behind
-- them. `k` is fuel for a line.
unfoldable pub session : ℕ → List Chars → (filecount : ℕ) → Shell → Run (List (ℕ × List Job))
unfolding drop_last
session k [] filecount s = ok []
session k (line ∷ lines) filecount s =
    run k (drop_last line) (record s { stdin = dev_null }) >>= λ r.
    session k lines (filecount + 1) (record (r.0) { stdin = s.stdin }) >>= λ rest.
    ok ((filecount, r.1) ∷ rest)

drop_last-append : (s : Chars) (c : ℕ) → drop_last (s ++ c ∷ []) ≡ s
unfolding drop_last
drop_last-append [] c = refl
drop_last-append (b ∷ []) c = refl
drop_last-append (b ∷ d ∷ s) c = ap (λ z. b ∷ z) (drop_last-append (d ∷ s) c)

abbrev pub newline : ℕ
newline = b'\n'

-- The input that consists of these lines.
unfoldable pub input_of : List Script → List Chars
input_of [] = []
input_of (script ∷ scripts) = (text script ++ newline ∷ []) ∷ input_of scripts

-- The jobs of the lines, numbered.
unfoldable pub numbered_jobs : (filecount pipes : ℕ) → List Script → List (ℕ × List Job)
numbered_jobs n pipes [] = []
numbered_jobs n pipes (script ∷ scripts) =
    (n, jobs dev_null pipes script)
    ∷ numbered_jobs (n + 1) (pipes + bars script.first script.rest) scripts

-- For lines as in `run-text`, each with its newline and shorter than the fuel, the session
-- starts the jobs of every line, the first ones reading `/dev/null`, with its output in the
-- file of its number, the pipes counted on from line to line.
pub session-input :
    (k : ℕ) (scripts : List Script) (n : ℕ) (s : Shell)
    → All IsScript scripts
    → All (λ script. length (text script) < k) scripts
    → session k (input_of scripts) n s ≡ ok (numbered_jobs n s.pipes scripts)
unfolding session input_of numbered_jobs
session-input k [] n s h lt = refl
session-input k (script ∷ scripts) n s h lt =
    rw
      (
        drop_last-append (text script) newline,
        run-text k script (record s { stdin = dev_null }) h.0 lt.0,
        session-input k scripts (n + 1)
            (record s { pipes = s.pipes + bars script.first script.rest }) h.1 lt.1,
      )
      refl
