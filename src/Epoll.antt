-- ===== src/Epoll.antt =====
-- hw8-jli230-main/C/hw8b.c: the server of two clients once more, in one thread, on events of epoll.
-- An event is a client that connects, with the descriptor that `accept` gives, or a client's descriptor
-- that can be read, with what `read` gives. What goes to the network is a list of effects, as in Chat;
-- the memory of a client, which nothing reads but for its descriptor, is left out.
pub mod Relay
mod Examples
use Prim.Native.String.{String}
use cs361_projects.Prelude.{
  ℕ, zero, suc, ◌+◌, Bool, true, false, ◌&&◌, ◌||◌, not, List, [], ◌∷◌, ◌++◌, ◌==◌, leb, length,
  if◌then◌else◌,
}
use cs361_projects.Prelude.Int.{ℤ, pos, ◌==ℤ◌}
use cs361_projects.Chat.{
  State, wait_clients, wait_asker, wait_answerer, exit, is_wait_clients, is_wait_asker,
  is_wait_answerer, Text, notice, message, Effect, send, close, awaiting_answerer,
  awaiting_question, you_may_ask, you_may_ask_another, patience, party_left,
}

-- The global variables.
pub record Epoll : Type 0 where
  pub state : State
  pub askerfd : ℕ
  pub answererfd : ℕ
  pub actives : ℕ

-- What `read` gives: an error, or bytes, none at the end of the connection.
pub data Got : Type 0 where
  failed : Got
  bytes : List ℕ → Got

pub data Event : Type 0 where
  connection : ℕ → Event
  readable : ℕ → Got → Event

-- `bad_access` is a write beyond the buffer.
pub data Run {ℓ} (A : Type ℓ) : Type ℓ where
  ok : A → Run A
  bad_access : Run A

infixl 5 ◌>>=◌
abbrev pub ◌>>=◌ {ℓ κ} : {A : Type ℓ} {B : Type κ} → Run A → (A → Run B) → Run B
◌>>=◌ (ok a) f = f a
◌>>=◌ bad_access f = bad_access

abbrev pub your_command : String
your_command = "Your command: "

-- `char buf[100]`
abbrev pub buf_size : ℕ
buf_size = 100

-- What `main` comes to in front of its loop: an end with a message, or the wait for events.
pub data Setup : Type 0 where
  usage not_bound waits : Setup

-- `argc`, and what `bind` returns; what the other calls return is not looked at.
unfoldable pub set_up : (argc : ℕ) (res : ℤ) → Setup
set_up argc res =
    if not (argc == 2) then usage else if not (res ==ℤ pos 0) then not_bound else waits

-- A new client.
unfoldable pub on_connection : ℕ → Epoll → Epoll × List Effect
on_connection cfd e =
    if e.actives == 0
    then (
      record e { state = wait_clients; askerfd = cfd; actives = e.actives + 1 },
      send cfd (notice your_command) ∷ send cfd (notice awaiting_answerer) ∷ [],
    )
    else (
      record e { state = wait_asker; answererfd = cfd; actives = e.actives + 1 },
      send cfd (notice your_command)
          ∷ send cfd (notice awaiting_question)
          ∷ send e.askerfd (notice you_may_ask)
          ∷ [],
    )

-- The text up to the zero byte that is written behind what was read.
unfoldable pub text_of : List ℕ → List ℕ
text_of [] = []
text_of (b ∷ bs) = if b == 0 then [] else b ∷ text_of bs

-- A message.
unfoldable pub relay : ℕ → List ℕ → Epoll → Epoll × List Effect
relay fd text e =
    if fd == e.answererfd
    then (if is_wait_asker e.state then (e, send fd (notice patience) ∷ []) else (
      record e { state = wait_asker },
      send e.askerfd (notice "Answer: ")
          ∷ send e.askerfd (message text)
          ∷ send e.askerfd (notice you_may_ask_another)
          ∷ send e.answererfd (notice awaiting_question)
          ∷ [],
    ))
    else if fd == e.askerfd
    then (if is_wait_clients e.state || is_wait_answerer e.state
        then (e, send fd (notice patience) ∷ [])
        else (
          record e { state = wait_answerer },
          send e.answererfd (notice "Question: ") ∷ send e.answererfd (message text) ∷ [],
        ))
    else (e, [])

-- A connection that is over.
unfoldable pub hang_up : ℕ → Epoll → Epoll × List Effect
hang_up fd e =
    let other : ℕ = if fd == e.answererfd then e.askerfd else e.answererfd in
    (record e { state = exit }, close fd ∷ send other (notice party_left) ∷ close other ∷ [])

-- A client that can be read; the flag says whether the loop over the events goes on.
unfoldable pub on_readable : ℕ → Got → Epoll → Run (Epoll × List Effect × Bool)
unfolding text_of relay hang_up
on_readable fd failed e = bad_access
on_readable fd (bytes bs) e =
    if leb buf_size (length bs)
    then bad_access
    else if (length bs == 0) && not (is_wait_clients e.state)
    then (let r = hang_up fd e in ok (r.0, r.1, false))
    else (let r = relay fd (text_of bs) e in ok (r.0, r.1, true))

unfoldable pub on_event : Event → Epoll → Run (Epoll × List Effect × Bool)
unfolding on_connection on_readable
on_event (connection cfd) e = let r = on_connection cfd e in ok (r.0, r.1, true)
on_event (readable fd got) e = on_readable fd got e

-- The loop over the events of one `epoll_wait`.
unfoldable pub on_events : List Event → Epoll → Run (Epoll × List Effect)
unfolding on_event
on_events [] e = ok (e, [])
on_events (ev ∷ evs) e = on_event ev e >>= λ r. elim (r.2) [
  | true ↦ on_events evs r.0 >>= λ q. ok (q.0, r.1 ++ q.1)
  | false ↦ ok (r.0, r.1)
]

-- The loop over `epoll_wait`.
unfoldable pub serve : List (List Event) → Epoll → Run (Epoll × List Effect)
unfolding on_events
serve [] e = ok (e, [])
serve (evs ∷ rest) e = on_events evs e >>= λ r. serve rest r.0 >>= λ q. ok (q.0, r.1 ++ q.1)
