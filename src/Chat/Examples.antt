-- ===== src/Chat/Examples.antt =====
-- The theorems on the server of hw8a.c at concrete inputs.
use cs361_projects.Prelude.{
  ℕ, ◌≡◌, refl, ◌≢◌, true, none, some, List, [], ◌∷◌, arith, ◌==◌, if◌then◌else◌,
}
use cs361_projects.Prelude.Int.{pos, negsuc}
use cs361_projects.Chat.{
  Client, Heap, Server, wait_clients, wait_asker, wait_answerer, exit, active, inactive, Role,
  Effect, send, close, notice, message, awaiting_answerer, awaiting_question, you_may_ask,
  party_left, patience, Pool, ok, bad_access, insert, remove_inactives, hang_up, goes_on, ends,
  handle,
}
use cs361_projects.Chat.Relay.{
  converse, listeners, InTurn, read_into, converse-InTurn, stale_question,
}
use cs361_projects.Chat.Removal.{Cleaned, remove_inactives-survivors}
use cs361_projects.Chat.Leaving.{Talking, hang_up-asker, hang_up-answerer, hang_up-answerer_left}
use cs361_projects.Chat.Joining.{
  first_client, second_client, together, together-Talking, insert-Talking,
}

-- No client, and nothing on the heap.
abbrev empty_server : Server
empty_server = record {
  state = wait_clients;
  askerfd = 0;
  answererfd = 0;
  heap = λ a. none;
  head = none;
  asker = none;
  answerer = none;
  actives = pos 0;
}

-- The asker has descriptor 4 and is at 100, the answerer has descriptor 5 and is at 200.
abbrev pair : Server
pair = together empty_server 100 200 4 5

abbrev asked : Server
asked = record pair { state = wait_answerer }

converse-InTurn_example : InTurn pair wait_asker (
    listeners (
      converse
        ((5, 72 ∷ []) ∷ (4, 65 ∷ []) ∷ (4, 66 ∷ []) ∷ (5, 67 ∷ []) ∷ (4, 68 ∷ []) ∷ [])
        pair))
converse-InTurn_example =
    converse-InTurn pair
      ((5, 72 ∷ []) ∷ (4, 65 ∷ []) ∷ (4, 66 ∷ []) ∷ (5, 67 ∷ []) ∷ (4, 68 ∷ []) ∷ []) (omega arith)

-- "abc" is turned down; "K" is the answer; "XY" follows, and "XYc" is passed on.
stale_question_example :
    (left left' left'' : List ℕ) × (out : List Effect) × (handle 3 100
        (pos 3)
        (97 ∷ 98 ∷ 99 ∷ 0 ∷ [])
        asked
      ≡ ok (goes_on asked left (send 4 (notice patience) ∷ [])))
    × (handle 3 200 (pos 1) (75 ∷ 0 ∷ []) asked ≡ ok (goes_on pair left' out))
    × (handle 3 100 (pos 2) (read_into (88 ∷ 89 ∷ []) left) pair
        ≡ ok (
            goes_on asked left''
              (send 5 (notice "Question: ") ∷ send 5 (message (88 ∷ 89 ∷ 99 ∷ [])) ∷ [])))
stale_question_example =
    stale_question 3 100 200 asked (first_client 4) (second_client 5 100) (pos 3) (pos 1) (pos 2) 97
      75 88 (98 ∷ []) (89 ∷ []) (99 ∷ []) [] [] [] refl refl refl refl (omega arith) refl
      (ground arith) (ground arith) (ground arith) (refl, (refl, (refl, tt))) (refl, tt)
      (refl, (refl, (refl, tt))) refl

-- Clients at 3, 7 and 9, of which the first two are inactive.
abbrev member : ℕ → Client
member fd = record {
  fd = fd;
  status = if fd == 9 then active else inactive;
  next = none;
  type = Role.answerer;
}

abbrev three_members : Pool
three_members = record {
  heap = λ a.
      if a == 3
      then some (record (member 3) { next = some 7 })
      else if a == 7
      then some (record (member 7) { next = some 9 })
      else if a == 9
      then some (member 9)
      else none;
  head = some 3;
  actives = pos 3;
}

remove_inactives-survivors_example :
    Cleaned
      (remove_inactives 4 three_members)
      ((3, member 3) ∷ (7, member 7) ∷ (9, member 9) ∷ [])
      three_members
remove_inactives-survivors_example =
    remove_inactives-survivors 4 ((3, member 3) ∷ (7, member 7) ∷ (9, member 9) ∷ []) three_members
      (refl, some 7, refl, (refl, some 9, refl, (refl, none, refl, refl)))
      (refl, (refl, (refl, tt))) (omega arith)

hang_up-asker_example :
    (h : Heap) × (hang_up 3 100 pair
      ≡ ok (
        record pair { state = exit; heap = h; head = none; actives = pos 0 },
        close 4 ∷ send 5 (notice party_left) ∷ close 5 ∷ [],
      ))
    × (h 100 ≡ none)
    × (h 200 ≡ none)
    × ((x : ℕ) → x ≢ 100 → x ≢ 200 → h x ≡ pair.heap x)
hang_up-asker_example =
    hang_up-asker 3 pair 100 200 (first_client 4) (second_client 5 100)
      (together-Talking empty_server 100 200 4 5 (omega arith) (omega arith)) (omega arith)

hang_up-answerer_example :
    (h : Heap) × (hang_up 3 200 pair
      ≡ ok (
        record pair { state = exit; heap = h; head = none; actives = pos 0 },
        close 5 ∷ send 4 (notice party_left) ∷ close 4 ∷ [],
      ))
    × (h 100 ≡ none)
    × (h 200 ≡ none)
    × ((x : ℕ) → x ≢ 100 → x ≢ 200 → h x ≡ pair.heap x)
hang_up-answerer_example =
    hang_up-answerer 3 pair 100 200 (first_client 4) (second_client 5 100)
      (together-Talking empty_server 100 200 4 5 (omega arith) (omega arith)) (omega arith)

hang_up-answerer_left_example :
    (s' : Server) × (es : List Effect) × (handle 3 100 (pos 0) (0 ∷ []) pair ≡ ok (ends s' es))
    × (handle 3 200 (negsuc 0) (0 ∷ []) s' ≡ bad_access)
hang_up-answerer_left_example =
    hang_up-answerer_left 3 pair 100 200 (first_client 4) (second_client 5 100)
      (together-Talking empty_server 100 200 4 5 (omega arith) (omega arith)) (pos 0) (negsuc 0)
      (0 ∷ []) (0 ∷ []) (omega arith) (ground arith) (ground arith) refl

insert-Talking_example :
    (s₁ s₂ : Server) × (insert 100 4 true empty_server
      ≡ (s₁, send 4 (notice awaiting_answerer) ∷ []))
    × (s₁.state ≡ wait_clients)
    × (insert 200 5 true s₁
        ≡ (s₂, send 5 (notice awaiting_question) ∷ send 4 (notice you_may_ask) ∷ []))
    × (s₂.state ≡ wait_asker)
    × Talking s₂ 100 200 (first_client 4) (second_client 5 100)
insert-Talking_example =
    insert-Talking empty_server 100 200 4 5 refl refl (omega arith) (omega arith)
