-- ===== src/Chat/Main/Phases/Examples.antt =====
-- The theorems on the accepting loop of hw8-jli230-main/C/hw8a.c, in a run in which two clients come.
use cs361_projects.Prelude.{true, ℕ, ◌≡◌, refl, List, [], ◌∷◌, arith}
use cs361_projects.Prelude.Int.{pos}
use cs361_projects.Chat.{text_of, Server, Effect, ok, goes_on, handle, insert, enlist}
use cs361_projects.Chat.Main.{House, Reach, opened, then_step, accepted, accept_round, empty_house}
use cs361_projects.Chat.Main.Phases.{Phase}
use cs361_projects.Chat.Main.Phases.Serve.{Reach-Phase, handler-GoesOn}

abbrev one_came : House
one_came = (accept_round (pos 4) 100 true empty_house).0

one_came-Reach : Reach one_came
one_came-Reach = then_step opened (accepted 4 100 refl (ground arith, λ a c e. cc e))

Reach-Phase_example : Phase one_came
Reach-Phase_example = Reach-Phase one_came-Reach

-- The buffer holds "A".
handler-GoesOn_example :
    (s' : Server) × (left : List ℕ) × (out : List Effect) × (handle 3 100
        (pos 1)
        (65 ∷ 0 ∷ [])
        one_came.server
      ≡ ok (goes_on s' left out))
    × Phase (record one_came { server = s' })
unfolding accept_round insert enlist text_of
handler-GoesOn_example =
    handler-GoesOn one_came-Reach 3 100 (pos 1) (65 ∷ 0 ∷ []) (65 ∷ []) (ground arith)
      (ground arith) (ground arith)
