-- ===== src/Epoll/Examples.antt =====
-- The theorems on hw8b.c at concrete inputs.
use cs361_projects.Prelude.{ℕ, ◌≡◌, refl, List, [], ◌∷◌, map, arith}
use cs361_projects.Chat.{wait_asker, Effect}
use cs361_projects.Chat.Relay.{converse, listeners, InTurn}
use cs361_projects.Epoll.{Epoll, ok, serve}
use cs361_projects.Epoll.Relay.{threaded, events, all_messages, serve-InTurn}

-- The asker has descriptor 5, the answerer 6.
abbrev pair : Epoll
pair = record { state = wait_asker; askerfd = 5; answererfd = 6; actives = 2 }

-- A question; then an answer and a question that reach the server together.
abbrev talk : List (List (ℕ × List ℕ))
talk = ((5, b'w' ∷ b'?' ∷ []) ∷ []) ∷ ((6, b'x' ∷ []) ∷ (5, b'y' ∷ []) ∷ []) ∷ []

serve-InTurn_example :
    (e' : Epoll) × (es : List Effect) × (serve (map events talk) pair ≡ ok (e', es))
    × (es ≡ converse (all_messages talk) (threaded pair))
    × InTurn (threaded pair) wait_asker (listeners es)
serve-InTurn_example = serve-InTurn talk pair (omega arith) (
  ((omega arith, omega arith, (refl, (refl, tt))), tt),
  (((omega arith, omega arith, (refl, tt)), ((omega arith, omega arith, (refl, tt)), tt)), tt),
)
