-- ===== src/Shell.antt =====
-- hw4-jli230-main/C/dsh.c: a shell. A line is cut at semicolons into a sequence, and each part at bars
-- into a pipeline; every command runs in a process of its own, for which the shell waits.
-- What a process does is not modelled: a run of the shell is the list of the jobs that it starts, with
-- where each reads and writes. `fork`, `pipe` and `dup2` are taken to succeed.
pub mod Lines
pub mod Exec
pub mod Session
mod Examples
use cs361_projects.Prelude.{ℕ, zero, suc, ◌+◌, none, some, Option, List, [], ◌∷◌, ◌++◌}
use cs361_projects.Prelude.Text.{Chars, cut}

-- Where a process reads: what the shell was started with, `/dev/null`, or a pipe.
pub data Source : Type 0 where
  inherited dev_null : Source
  from_pipe : ℕ → Source

-- Where it writes.
pub data Sink : Type 0 where
  output : Sink
  into_pipe : ℕ → Sink

pub record Job : Type 0 where
  pub command : Chars
  pub reads : Source
  pub writes : Sink

-- The shell's own standard input, and how many pipes it has made.
pub record Shell : Type 0 where
  pub stdin : Source
  pub pipes : ℕ

-- `past_end` is a text that is read behind its zero byte.
pub data Run {ℓ} (A : Type ℓ) : Type ℓ where
  ok : A → Run A
  past_end out_of_fuel : Run A

infixl 5 ◌>>=◌
abbrev pub ◌>>=◌ {ℓ κ} : {A : Type ℓ} {B : Type κ} → Run A → (A → Run B) → Run B
◌>>=◌ (ok a) f = f a
◌>>=◌ past_end f = past_end
◌>>=◌ out_of_fuel f = out_of_fuel

abbrev pub semicolon : ℕ
semicolon = b';'

abbrev pub bar : ℕ
bar = b'|'

abbrev pub Outcome : Type 0
Outcome = Run (Shell × List Job)

-- `run_pipeline`: the head as a process that writes into a new pipe, then `run(tail + 1)` with that
-- pipe as standard input, which is put back behind it. `recur` is `run`.
unfoldable pub run_pipeline : (Chars → Shell → Outcome) → (head tail : Chars) → Shell → Outcome
run_pipeline recur head [] s = past_end
run_pipeline recur head (c ∷ rest) s =
    recur rest (record { stdin = from_pipe s.pipes; pipes = s.pipes + 1 }) >>= λ r. ok (
      record (r.0) { stdin = s.stdin },
      record { command = head; reads = s.stdin; writes = into_pipe s.pipes } ∷ r.1,
    )

-- `run_sequence`
unfoldable pub run_sequence : (Chars → Shell → Outcome) → (head tail : Chars) → Shell → Outcome
run_sequence recur head tail s = recur head s >>= λ r. recur tail r.0 >>= λ q. ok (q.0, r.1 ++ q.1)

-- `run`, with fuel for the calls within one another.
unfoldable pub run : ℕ → (line : Chars) → Shell → Outcome
unfolding run_pipeline run_sequence
run zero line s = out_of_fuel
run (suc k) line s = elim (cut semicolon line) [
  | some (head, tail) ↦ run_sequence (run k) head tail s
  | none ↦ elim (cut bar line) [
    | some (head, tail) ↦ run_pipeline (run k) head tail s
    | none ↦ ok (s, record { command = line; reads = s.stdin; writes = output } ∷ [])
  ]
]
