-- ===== src/Shell/Examples.antt =====
-- The theorems on dsh.c at concrete inputs.
use cs361_projects.Prelude.{◌≡◌, refl, [], ◌∷◌, arith}
use cs361_projects.Prelude.Text.{Chars, IsWord, fields, non_empty, join, tokens, same}
use cs361_projects.Shell.{inherited, from_pipe, output, into_pipe, Shell, ok, run}
use cs361_projects.Shell.Lines.{
  Script, IsScript, text, rest_text, lines_text, rest_jobs, lines_jobs, bars, Ends, run-text,
  run-Ends,
}
use cs361_projects.Shell.Exec
use cs361_projects.Shell.Exec.{
  World, stdout, redirect, becomes, space, colon, stream_of, file_of, redirections, search_path,
  exec_command,
}
use cs361_projects.Shell.Exec.Words.{exec_command-redirect, exec_command-becomes}
use cs361_projects.Shell.Session.{session, input_of, numbered_jobs, session-input}

abbrev ls : Chars
ls = b'l' ∷ b's' ∷ []

abbrev wc : Chars
wc = b'w' ∷ b'c' ∷ []

-- `ls| wc;ls`
abbrev script : Script
script = record {
  first = record { first = ls; rest = (b' ', wc) ∷ [] };
  rest = record { first = ls; rest = [] } ∷ [];
}

abbrev start : Shell
start = record { stdin = inherited; pipes = 0 }

script-IsScript : IsScript script
script-IsScript = (
  (
    ((refl, (refl, tt)), (refl, (refl, tt))),
    ((refl, ((refl, (refl, tt)), (refl, (refl, tt)))), tt),
  ),
  ((((refl, (refl, tt)), (refl, (refl, tt))), tt), tt),
)

ls-IsWord : IsWord space ls
ls-IsWord = (refl, (refl, tt))

run-text_example :
    run 20 (text script) start
    ≡ ok (
      record start { pipes = 1 },
      record { command = ls; reads = inherited; writes = into_pipe 0 }
          ∷ record { command = wc; reads = from_pipe 0; writes = output }
          ∷ record { command = ls; reads = inherited; writes = output }
          ∷ [],
    )
unfolding bars lines_jobs rest_jobs lines_text rest_text
run-text_example = run-text 20 script start script-IsScript (omega arith)

run-Ends_example : Ends start (run 20 (b'a' ∷ b'|' ∷ b';' ∷ []) start)
run-Ends_example = run-Ends 20 (b'a' ∷ b'|' ∷ b';' ∷ []) start (omega arith)

-- The file `f` opens, and `/b/ls` is a program.
abbrev world : World
world = record {
  opens = λ f. same f (b'f' ∷ []);
  execve = λ p _. same p (b'/' ∷ b'b' ∷ b'/' ∷ b'l' ∷ b's' ∷ []);
}

-- `ls x > f`
exec_command-redirect_example :
    exec_command world [] (join space (ls ∷ (b'x' ∷ []) ∷ (b'>' ∷ []) ∷ (b'f' ∷ []) ∷ []))
    ≡ Exec.ok (redirect stdout (b'f' ∷ []) ∷ [], Exec.not_found ls)
unfolding search_path redirections file_of stream_of same tokens fields non_empty
exec_command-redirect_example =
    exec_command-redirect world [] ls (b'>' ∷ []) (b'f' ∷ []) ((b'x' ∷ []) ∷ []) [] stdout
      (ls-IsWord, ((refl, tt), ((refl, tt), ((refl, tt), tt)))) (omega arith) (refl, tt) refl refl

-- `ls x` with the path `/a:/b`
exec_command-becomes_example :
    exec_command world
      (join colon ((b'/' ∷ b'a' ∷ []) ∷ (b'/' ∷ b'b' ∷ []) ∷ []))
      (join space (ls ∷ (b'x' ∷ []) ∷ []))
    ≡ Exec.ok ([], becomes (b'/' ∷ b'b' ∷ b'/' ∷ ls) (ls ∷ (b'x' ∷ []) ∷ []))
unfolding stream_of same
exec_command-becomes_example =
    exec_command-becomes world ls ((b'x' ∷ []) ∷ []) (ls-IsWord, ((refl, tt), tt)) (omega arith)
      (refl, tt) ((b'/' ∷ b'a' ∷ []) ∷ []) [] (b'/' ∷ b'b' ∷ [])
      ((refl, (refl, tt)), ((refl, (refl, tt)), tt)) (omega arith, (omega arith, tt)) (refl, tt)
      refl

session-input_example :
    session 20 (input_of (script ∷ script ∷ [])) 1 start
    ≡ ok (numbered_jobs 1 0 (script ∷ script ∷ []))
unfolding lines_text rest_text
session-input_example =
    session-input 20 (script ∷ script ∷ []) 1 start (script-IsScript, (script-IsScript, tt))
      (omega arith, (omega arith, tt))
