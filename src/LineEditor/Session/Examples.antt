-- ===== src/LineEditor/Session/Examples.antt =====
-- The theorem on the sessions of hw5-jli230-main/C/dsh_main.c at concrete lines: `ls`, and `pwd` behind
-- a byte that is deleted again.
use cs361_projects.Prelude.{◌≡◌, refl, List, [], ◌∷◌, ◌++◌, map, All, arith}
use cs361_projects.LineEditor.{Key, char, enter, backspace}
use cs361_projects.LineEditor.Lines.{written}
use cs361_projects.LineEditor.Typing.{spell, press, press_all}
use cs361_projects.LineEditor.Session.{Session, opened, ok, rounds}
use cs361_projects.LineEditor.Session.Typed.{IsLine}
use cs361_projects.LineEditor.Session.Shown.{Kept, told, rounds-told}
use cs361_projects.Prelude.Text.{codes}

abbrev two_lines : List (List Key)
two_lines =
    (char b'l' ∷ char b's' ∷ [])
    ∷ (char b'x' ∷ backspace ∷ char b'p' ∷ char b'w' ∷ char b'd' ∷ [])
    ∷ []

two_lines-IsLine : All IsLine two_lines
unfolding written
two_lines-IsLine = (
  record { editing = (tt, (tt, tt)); bytes = (refl, (refl, tt)); few = omega arith },
  (
    record {
      editing = (tt, (tt, (tt, (tt, (tt, tt)))));
      bytes = (refl, (tt, (refl, (refl, (refl, tt)))));
      few = omega arith;
    },
    tt,
  ),
)

rounds-told_example :
    (st : Session) × (rounds (map (λ keys. keys ++ enter ∷ []) two_lines) opened
      ≡ ok (st, told [] (codes "ls\n" ∷ codes "pwd\n" ∷ [])))
    × Kept (codes "ls\n" ∷ codes "pwd\n" ∷ []) st
unfolding spell press press_all
rounds-told_example = rounds-told two_lines two_lines-IsLine (omega arith)
