-- ===== src/Shell/Exec.antt =====
-- `exec_command` of hw4-jli230-main/C/dsh.c: the words of a command, its redirections, and the search
-- for its program. Which files `open` opens, and which programs `execve` starts, are arguments.
pub mod Words
use cs361_projects.Prelude.{
  ℕ, suc, ◌<◌, Bool, true, false, none, some, Option, List, [], ◌∷◌, ◌++◌, leb, ltb, length,
  if◌then◌else◌,
}
use cs361_projects.Prelude.Text.{Chars, tokens, same}

pub record World : Type 0 where
  pub opens : Chars → Bool
  pub execve : Chars → List Chars → Bool

pub data Stream : Type 0 where
  stdin stdout stderr : Stream

-- A stream that is set to a file, and the message for a file that is not opened.
pub data Effect : Type 0 where
  redirect : Stream → Chars → Effect
  complain : Stream → Effect

-- The process becomes the program at a path, with its arguments, or ends with a message.
pub data Ending : Type 0 where
  becomes : Chars → List Chars → Ending
  not_found : Chars → Ending

-- A write behind the end of an array, or a use of NULL as a text.
pub data Exec {ℓ} (A : Type ℓ) : Type ℓ where
  ok : A → Exec A
  overrun null_text : Exec A

infixl 5 ◌>>=◌
abbrev pub ◌>>=◌ {ℓ κ} : {A : Type ℓ} {B : Type κ} → Exec A → (A → Exec B) → Exec B
◌>>=◌ (ok a) f = f a
◌>>=◌ overrun f = overrun
◌>>=◌ null_text f = null_text

abbrev pub space : ℕ
space = b' '

abbrev pub colon : ℕ
colon = b':'

-- The size of `args`, and of `pathcomm`.
abbrev pub max_args : ℕ
max_args = 16

abbrev pub max_path : ℕ
max_path = 100

-- The tests against "<", ">" and "2>".
unfoldable pub stream_of : Chars → Option Stream
stream_of a =
    if same a (b'<' ∷ [])
    then some stdin
    else if same a (b'>' ∷ [])
    then some stdout
    else if same a (b'2' ∷ b'>' ∷ [])
    then some stderr
    else none

-- `open(args[j+1], …)`; the last argument is followed by NULL, which does not open.
unfoldable pub file_of : (Chars → Bool) → List Chars → Option Chars
file_of opens [] = none
file_of opens (f ∷ rest) = if opens f then some f else none

-- The `for` loop: what it leaves in `args` from an argument on, and what it does.
unfoldable pub redirections : (Chars → Bool) → List Chars → List (Option Chars) × List Effect
unfolding file_of
redirections opens [] = ([], [])
redirections opens (a ∷ rest) =
    let r = redirections opens rest in
    elim (stream_of a) [
      | none ↦ (some a ∷ r.0, r.1)
      | some st ↦ elim (file_of opens rest) [
        | some f ↦ (none ∷ r.0, redirect st f ∷ r.1)
        | none ↦ (some a ∷ r.0, complain st ∷ r.1)
      ]
    ]

-- The arguments that `execve` reads: those before the first NULL.
unfoldable pub until_null : List (Option Chars) → List Chars
until_null [] = []
until_null (none ∷ args) = []
until_null (some a ∷ args) = a ∷ until_null args

abbrev pub full_path : Chars → Chars → Chars
full_path path program = path ++ (b'/' ∷ program)

-- The loop over the parts of PATH. `execve` returns only if it fails.
unfoldable pub search_path :
    (Chars → List Chars → Bool) → (program : Chars) → List Chars → List Chars → Exec Ending
search_path execve program argv [] = ok (not_found program)
search_path execve program argv (p ∷ ps) =
    let rest = search_path execve program argv ps in
    if leb max_path (length (full_path p program))
    then overrun
    else if execve (full_path p program) argv
    then ok (becomes (full_path p program) argv)
    else rest

-- `exec_command`; `path` is the value of PATH.
unfoldable pub exec_command : World → (path command : Chars) → Exec (List Effect × Ending)
unfolding redirections until_null search_path
exec_command w path command = elim (tokens space command) [
  | [] ↦ null_text
  | program ∷ args ↦
      if leb max_args (length (program ∷ args))
      then overrun
      else (let r = redirections w.opens args in
          search_path w.execve program (program ∷ until_null r.0) (tokens colon path) >>= λ end.
          ok (r.1, end))
]
