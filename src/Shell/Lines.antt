-- ===== src/Shell/Lines.antt =====
-- What `run` of hw4-jli230-main/C/dsh.c makes of a line.

use cs361_projects.Prelude.{
  ℕ, zero, suc, ◌+◌, ◌<◌, ◌≤◌, ◌≡◌, refl, ap, ◌∙◌, inl, inr, false, some, Option, List, [], ◌∷◌,
  ◌++◌, arith, ◌==◌, length, length-append, All, All-append, Bool-cases, Option-cases,
}
use cs361_projects.Prelude.Text.{Chars, cut, Lacks, cut-lacking, cut-append}
use cs361_projects.Shell.{
  Source, from_pipe, output, into_pipe, Job, Shell, ok, past_end, out_of_fuel, ◌>>=◌, semicolon,
  bar, Outcome, run_pipeline, run_sequence, run,
}

-- A command, and those behind it, each with the byte that stands between the bar and it.
pub record Pipeline : Type 0 where
  pub first : Chars
  pub rest : List (ℕ × Chars)

-- A line: a pipeline, and those behind a semicolon.
pub record Script : Type 0 where
  pub first : Pipeline
  pub rest : List Pipeline

unfoldable pub rest_text : Chars → List (ℕ × Chars) → Chars
rest_text c [] = c
rest_text c ((x, d) ∷ r) = c ++ bar ∷ x ∷ rest_text d r

abbrev pub pipeline_text : Pipeline → Chars
pipeline_text p = rest_text p.first p.rest

unfoldable pub lines_text : Pipeline → List Pipeline → Chars
lines_text p [] = pipeline_text p
lines_text p (q ∷ qs) = pipeline_text p ++ semicolon ∷ lines_text q qs

abbrev pub text : Script → Chars
text s = lines_text s.first s.rest

-- The jobs of a pipeline that reads from `src`, when `n` pipes have been made.
unfoldable pub rest_jobs : Source → ℕ → Chars → List (ℕ × Chars) → List Job
rest_jobs src n c [] = record { command = c; reads = src; writes = output } ∷ []
rest_jobs src n c ((x, d) ∷ r) =
    record { command = c; reads = src; writes = into_pipe n } ∷ rest_jobs (from_pipe n) (n + 1) d r

unfoldable pub lines_jobs : Source → ℕ → Pipeline → List Pipeline → List Job
lines_jobs src n p [] = rest_jobs src n p.first p.rest
lines_jobs src n p (q ∷ qs) =
    rest_jobs src n p.first p.rest ++ lines_jobs src (n + length p.rest) q qs

abbrev pub jobs : Source → ℕ → Script → List Job
jobs src n s = lines_jobs src n s.first s.rest

unfoldable pub bars : Pipeline → List Pipeline → ℕ
bars p [] = length p.rest
bars p (q ∷ qs) = length p.rest + bars q qs

-- No semicolon or bar in a command, and no semicolon behind a bar.
abbrev pub Plain : Chars → Type 0
Plain c = Lacks semicolon c × Lacks bar c

abbrev pub PlainRest : List (ℕ × Chars) → Type 0
PlainRest r = All (λ xd. ((xd.0 == semicolon) ≡ false) × Plain xd.1) r

abbrev pub PlainPipeline : Pipeline → Type 0
PlainPipeline p = Plain p.first × PlainRest p.rest

abbrev pub IsScript : Script → Type 0
IsScript s = PlainPipeline s.first × All PlainPipeline s.rest

rest_text-Lacks :
    (c : Chars) (r : List (ℕ × Chars)) → Plain c → PlainRest r → Lacks semicolon (rest_text c r)
unfolding rest_text
rest_text-Lacks c [] p h = p.0
rest_text-Lacks c ((x, d) ∷ r) p h =
    All-append (λ b. (b == semicolon) ≡ false) c (bar ∷ x ∷ rest_text d r) (p.0)
      (refl, (h.0.0, rest_text-Lacks d r h.0.1 h.1))

run-rest :
    (k : ℕ) (c : Chars) (r : List (ℕ × Chars)) (src : Source) (n : ℕ)
    → Plain c
    → PlainRest r
    → length (rest_text c r) < k
    → run k (rest_text c r) (record { stdin = src; pipes = n })
      ≡ ok (record { stdin = src; pipes = n + length r }, rest_jobs src n c r)
unfolding run rest_text rest_jobs
run-rest zero c r src n p h lt = elim lt [ ]
run-rest (suc k) c [] src n p h lt =
    rw (run, cut-lacking semicolon c p.0, cut-lacking bar c p.1)
      (ap
        (λ m. ok (
          record { stdin = src; pipes = m },
          record { command = c; reads = src; writes = output } ∷ [],
        ))
        (omega arith))
run-rest (suc k) c ((x, d) ∷ r) src n p h lt =
    rw
      (
        run,
        cut-lacking semicolon (c ++ bar ∷ x ∷ rest_text d r) (rest_text-Lacks c ((x, d) ∷ r) p h),
        cut-append bar c (x ∷ rest_text d r) p.1,
        run-rest k d r (from_pipe n) (n + 1) h.0.1 h.1
            (omega (arith, length-append {0} c (bar ∷ x ∷ rest_text d r))),
      )
      (ap
        (λ m. ok (
          record { stdin = src; pipes = m },
          record { command = c; reads = src; writes = into_pipe n }
              ∷ rest_jobs (from_pipe n) (n + 1) d r,
        ))
        (omega arith))

run-lines :
    (k : ℕ) (p : Pipeline) (ps : List Pipeline) (src : Source) (n : ℕ)
    → PlainPipeline p
    → All PlainPipeline ps
    → length (lines_text p ps) < k
    → run k (lines_text p ps) (record { stdin = src; pipes = n })
      ≡ ok (record { stdin = src; pipes = n + bars p ps }, lines_jobs src n p ps)
unfolding run lines_text lines_jobs bars
run-lines k p [] src n h hs lt = run-rest k p.first p.rest src n h.0 h.1 lt
run-lines zero p (q ∷ qs) src n h hs lt = elim lt [ ]
run-lines (suc k) p (q ∷ qs) src n h hs lt =
    let total = length-append {0} (pipeline_text p) (semicolon ∷ lines_text q qs) in
    rw
      (
        run,
        cut-append semicolon (pipeline_text p) (lines_text q qs)
            (rest_text-Lacks p.first p.rest h.0 h.1),
        run-rest k p.first p.rest src n h.0 h.1 (omega (arith, total)),
        run-lines k q qs src (n + length p.rest) hs.0 hs.1 (omega (arith, total)),
      )
      (ap
        (λ m. ok (
          record { stdin = src; pipes = m },
          rest_jobs src n p.first p.rest ++ lines_jobs src (n + length p.rest) q qs,
        ))
        (omega arith))

-- For pipelines of commands without a bar or a semicolon, joined by bars, with any byte but a
-- semicolon behind each bar, and by semicolons, and more fuel than bytes: `run` starts a job
-- for every command, in order; each job of a pipeline but the last writes into a new pipe,
-- from which the next one reads, while the first reads and the last writes as the shell does;
-- the byte behind a bar is no part of a command. The shell's standard input is as before.
pub run-text :
    (k : ℕ) (script : Script) (s : Shell)
    → IsScript script
    → length (text script) < k
    → run k (text script) s
      ≡ ok (
        record s { pipes = s.pipes + bars script.first script.rest },
        jobs s.stdin s.pipes script,
      )
run-text k script s h lt = run-lines k script.first script.rest s.stdin s.pipes h.0 h.1 lt

length-cut : (d : ℕ) (s h t : Chars) → cut d s ≡ some (h, t) → length s ≡ length h + 1 + length t
unfolding cut
length-cut d [] h t e = cc e
length-cut d (c ∷ s) h t e = elim (Bool-cases (c == d)) [
  | inl hit ↦
      let g : ◌≡◌ {A = Option (Chars × Chars)} (some ([], s)) (some (h, t)) = rw (cut, hit) at e in
      let front : h ≡ [] = cc g in let behind : t ≡ s = cc g in rw (front, behind) (omega arith)
  | inr miss ↦ elim (Option-cases (cut d s)) [
    | inl e' ↦ cc (rw (cut, miss, e') at e)
    | inr ((h', t'), e') ↦
        let g : ◌≡◌ {A = Option (Chars × Chars)} (some (c ∷ h', t')) (some (h, t)) =
          rw (cut, miss, e') at e in
        let front : h ≡ c ∷ h' = cc g in
        let behind : t ≡ t' = cc g in rw (front, behind) (omega (arith, length-cut d s h' t' e'))
  ]
]

-- The outcome of a run that has not used up its fuel.
abbrev pub Ends : Shell → Outcome → Type 0
Ends s (ok r) = (r.0.stdin ≡ s.stdin) × (s.pipes ≤ r.0.pipes)
Ends s past_end = Unit
Ends s out_of_fuel = ⊥

Ends-pipeline :
    (recur : Chars → Shell → Outcome) (head tail : Chars) (s : Shell)
    → ((line : Chars) (t : Shell) → length line < length tail → Ends t (recur line t))
    → Ends s (run_pipeline recur head tail s)
unfolding run_pipeline
Ends-pipeline recur head [] s ends = tt
Ends-pipeline recur head (c ∷ rest) s ends =
    let inner : Shell = record { stdin = from_pipe s.pipes; pipes = s.pipes + 1 } in
    after (recur rest inner) (ends rest inner (omega arith))
  where
    after :
        (o : Outcome)
        → Ends (record { stdin = from_pipe s.pipes; pipes = s.pipes + 1 }) o
        → Ends s (
            o >>= λ r. ok (
              record (r.0) { stdin = s.stdin },
              record { command = head; reads = s.stdin; writes = into_pipe s.pipes } ∷ r.1,
            ))
    after (ok r) e = (refl, omega (arith, e.1))
    after past_end e = tt
    after out_of_fuel e = e

Ends-sequence :
    (recur : Chars → Shell → Outcome) (head tail : Chars) (s : Shell)
    → Ends s (recur head s)
    → ((t : Shell) → Ends t (recur tail t))
    → Ends s (run_sequence recur head tail s)
unfolding run_sequence
Ends-sequence recur head tail s first second = after (recur head s) first
  where
    last :
        (r : Shell × List Job)
        → Ends s (ok r)
        → (o : Outcome) → Ends (r.0) o
        → Ends s (o >>= λ q. ok (q.0, r.1 ++ q.1))
    last r e (ok q) f = (f.0 ∙ e.0, omega (arith, e.1, f.1))
    last r e past_end f = tt
    last r e out_of_fuel f = f

    after :
        (o : Outcome) → Ends s o → Ends s (o >>= λ r. recur tail r.0 >>= λ q. ok (q.0, r.1 ++ q.1))
    after (ok r) e = last r e (recur tail r.0) (second r.0)
    after past_end e = tt
    after out_of_fuel e = e

-- On any line, with more fuel than the line has bytes, `run` ends: it reads behind the end of
-- the line, or it leaves the shell's standard input as it was and has made no fewer pipes.
pub run-Ends : (k : ℕ) (line : Chars) (s : Shell) → length line < k → Ends s (run k line s)
unfolding run
run-Ends zero line s lt = elim lt [ ]
run-Ends (suc k) line s lt = elim (Option-cases (cut semicolon line)) [
  | inr ((head, tail), e) ↦
      let size = length-cut semicolon line head tail e in
      rw (run, e)
        (Ends-sequence (run k) head tail s (run-Ends k head s (omega (arith, size)))
          (λ t. run-Ends k tail t (omega (arith, size))))
  | inl no_semicolon ↦ elim (Option-cases (cut bar line)) [
    | inr ((head, tail), e) ↦
        let size = length-cut bar line head tail e in
        rw (run, no_semicolon, e)
          (Ends-pipeline (run k) head tail s
            (λ rest t lt'. run-Ends k rest t (omega (arith, size, lt'))))
    | inl no_bar ↦ rw (run, no_semicolon, no_bar) (refl, omega arith)
  ]
]

-- A command without a bar or a semicolon, with a bar as the last byte of the line: `run` reads
-- behind the end of the line.
pub run-open_bar :
    (k : ℕ) (c : Chars) (s : Shell) → Plain c → run (suc k) (c ++ bar ∷ []) s ≡ past_end
unfolding run
run-open_bar k c s p =
    rw
      (
        run,
        cut-lacking semicolon (c ++ bar ∷ [])
            (All-append (λ b. (b == semicolon) ≡ false) c (bar ∷ []) p.0 (refl, tt)),
        cut-append bar c [] p.1,
      )
      refl
