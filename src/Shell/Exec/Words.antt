-- ===== src/Shell/Exec/Words.antt =====
-- What `exec_command` of hw4-jli230-main/C/dsh.c makes of the words of a command.
use cs361_projects.Prelude.{
  ◌<◌, ◌≤◌, ◌≡◌, refl, ap, Bool, true, false, none, some, List, [], ◌∷◌, ◌++◌, arith, leb, length,
  All,
}
use cs361_projects.Prelude.Text.{Chars, tokens, tokens-join, join, IsWord}
use cs361_projects.Shell.Exec.{
  World, Stream, redirect, becomes, not_found, ok, overrun, ◌>>=◌, space, colon, max_args, max_path,
  stream_of, file_of, redirections, until_null, full_path, search_path, exec_command,
}

-- Words that are no redirections.
abbrev pub IsPlain : List Chars → Type 0
IsPlain ws = All (λ a. stream_of a ≡ none) ws

redirections-plain :
    (opens : Chars → Bool) (ws : List Chars)
    → IsPlain ws
    → (until_null (redirections opens ws).0 ≡ ws) × ((redirections opens ws).1 ≡ [])
unfolding redirections until_null
redirections-plain opens [] h = (refl, refl)
redirections-plain opens (a ∷ ws) h =
    let (left, nothing) = redirections-plain opens ws h.1 in
    (rw (redirections, h.0) (ap (λ z. a ∷ z) left), rw (redirections, h.0) nothing)

redirections-open :
    (opens : Chars → Bool) (ws : List Chars) (op file : Chars) (st : Stream) (rest : List Chars)
    → IsPlain ws
    → stream_of op ≡ some st
    → opens file ≡ true
    → (until_null (redirections opens (ws ++ op ∷ file ∷ rest)).0 ≡ ws)
      × ((redirections opens (ws ++ op ∷ file ∷ rest)).1
          ≡ redirect st file ∷ (redirections opens (file ∷ rest)).1)
unfolding redirections until_null file_of
redirections-open opens [] op file st rest h o f =
    (rw (redirections, o, f) refl, rw (redirections, o, f) refl)
redirections-open opens (a ∷ ws) op file st rest h o f =
    let (left, done) = redirections-open opens ws op file st rest h.1 o f in
    (rw (redirections, h.0) (ap (λ z. a ∷ z) left), rw (redirections, h.0) done)

-- For a command of fewer than 16 words, joined by single spaces: at the first word that is a
-- redirection, when the file that follows it opens, the stream is set to the file, further
-- redirections behind it are carried out as well, and the program is looked for with the words
-- in front of the redirection as its arguments.
pub exec_command-redirect :
    (w : World) (path program op file : Chars) (ws rest : List Chars) (st : Stream)
    → All (IsWord space) (program ∷ ws ++ op ∷ file ∷ rest)
    → length (program ∷ ws ++ op ∷ file ∷ rest) < max_args
    → IsPlain ws
    → stream_of op ≡ some st
    → w.opens file ≡ true
    → exec_command w path (join space (program ∷ ws ++ op ∷ file ∷ rest)) ≡ (
        search_path w.execve program (program ∷ ws) (tokens colon path) >>= λ end.
        ok (redirect st file ∷ (redirections w.opens (file ∷ rest)).1, end))
unfolding exec_command
exec_command-redirect w path program op file ws rest st words few plain o f =
    let (left, done) = redirections-open w.opens ws op file st rest plain o f in
    let room : leb max_args (length (program ∷ ws ++ op ∷ file ∷ rest)) ≡ false = ground arith in
    rw (exec_command, tokens-join space (program ∷ ws ++ op ∷ file ∷ rest) words, room, left, done)
      refl

abbrev pub Fits : Chars → List Chars → Type 0
Fits program ps = All (λ p. length (full_path p program) < max_path) ps

search_path-first :
    (execve : Chars → List Chars → Bool) (program p : Chars) (argv ps qs : List Chars)
    → Fits program (ps ++ p ∷ [])
    → All (λ q. execve (full_path q program) argv ≡ false) ps
    → execve (full_path p program) argv ≡ true
    → search_path execve program argv (ps ++ p ∷ qs) ≡ ok (becomes (full_path p program) argv)
unfolding search_path
search_path-first execve program p argv [] qs fits no_one found =
    let room : leb max_path (length (full_path p program)) ≡ false = ground (arith, fits.0) in
    rw (room, found) refl
search_path-first execve program p argv (q ∷ ps) qs fits no_one found =
    let room : leb max_path (length (full_path q program)) ≡ false = ground (arith, fits.0) in
    rw (room, no_one.0) (search_path-first execve program p argv ps qs fits.1 no_one.1 found)

search_path-none :
    (execve : Chars → List Chars → Bool) (program : Chars) (argv ps : List Chars)
    → Fits program ps
    → All (λ q. execve (full_path q program) argv ≡ false) ps
    → search_path execve program argv ps ≡ ok (not_found program)
unfolding search_path
search_path-none execve program argv [] fits no_one = refl
search_path-none execve program argv (q ∷ ps) fits no_one =
    let room : leb max_path (length (full_path q program)) ≡ false = ground (arith, fits.0) in
    rw (room, no_one.0) (search_path-none execve program argv ps fits.1 no_one.1)

-- A command of words with no redirection among them, few enough for `args`.
module _ (w : World) (program : Chars) (args : List Chars)
    (words : All (IsWord space) (program ∷ args)) (few : length (program ∷ args) < max_args)
    (plain : IsPlain args) where
  exec_command-plain :
      (path : Chars)
      → exec_command w path (join space (program ∷ args)) ≡ (
          search_path w.execve program (program ∷ args) (tokens colon path) >>= λ end. ok ([], end))
  unfolding exec_command
  exec_command-plain path =
      let (left, nothing) = redirections-plain w.opens args plain in
      let room : leb max_args (length (program ∷ args)) ≡ false = ground arith in
      rw (exec_command, tokens-join space (program ∷ args) words, room, left, nothing) refl

  -- For a command of fewer than 16 words, joined by single spaces and with none at its ends, with no
  -- redirection behind the first: the process becomes the program in the first part of the path in
  -- which it can be started, with all the words as arguments, when the path is joined by single colons
  -- and the names up to this one fit into the buffer.
  pub exec_command-becomes :
      (ps qs : List Chars) (p : Chars)
      → All (IsWord colon) (ps ++ p ∷ qs)
      → Fits program (ps ++ p ∷ [])
      → All (λ q. w.execve (full_path q program) (program ∷ args) ≡ false) ps
      → w.execve (full_path p program) (program ∷ args) ≡ true
      → exec_command w (join colon (ps ++ p ∷ qs)) (join space (program ∷ args))
        ≡ ok ([], becomes (full_path p program) (program ∷ args))
  exec_command-becomes ps qs p parts fits no_one found =
      rw
        (
          exec_command-plain (join colon (ps ++ p ∷ qs)),
          tokens-join colon (ps ++ p ∷ qs) parts,
          search_path-first w.execve program p (program ∷ args) ps qs fits no_one found,
        )
        refl

  -- When the program can be started in no part of the path, and all names fit into the
  -- buffer, it is reported as not found.
  pub exec_command-not_found :
      (ps : List Chars)
      → All (IsWord colon) ps
      → Fits program ps
      → All (λ q. w.execve (full_path q program) (program ∷ args) ≡ false) ps
      → exec_command w (join colon ps) (join space (program ∷ args)) ≡ ok ([], not_found program)
  exec_command-not_found ps parts fits no_one =
      rw
        (
          exec_command-plain (join colon ps),
          tokens-join colon ps parts,
          search_path-none w.execve program (program ∷ args) ps fits no_one,
        )
        refl

-- A command of 16 words or more, joined by single spaces, overruns the array of the arguments.
exec_command-overrun :
    (w : World) (path : Chars) (ws : List Chars)
    → All (IsWord space) ws
    → max_args ≤ length ws
    → exec_command w path (join space ws) ≡ overrun
unfolding exec_command
exec_command-overrun w path [] words many = absurd (omega (arith, many))
exec_command-overrun w path (program ∷ args) words many =
    let full : leb max_args (length (program ∷ args)) ≡ true = ground (arith, many) in
    rw (exec_command, tokens-join space (program ∷ args) words, full) refl
