-- ===== src/Chat/Main.antt =====
-- `main` of hw8-jli230-main/C/hw8a.c: the socket that it sets up, and the loop that accepts clients,
-- with the handlers that run beside it.
-- What the system calls give is an argument. A round of the loop and a round of a handler each run with
-- no other in between.
pub mod Rounds
pub mod Phases
use cs361_projects.Prelude.{
  ℕ, ◌+◌, ◌<◌, ◌≡◌, ◌≢◌, Bool, true, false, none, some, List, [], ◌∷◌, ◌++◌, ◌==◌, not,
  if◌then◌else◌,
}
use cs361_projects.Prelude.Int.{ℤ, pos, negsuc, ◌==ℤ◌}
use cs361_projects.Prelude.Links.{◌∈◌}
use cs361_projects.Chat.{
  Client, Server, wait_clients, Effect, close, ok, insert, goes_on, text_of, handle,
}

-- What `main` comes to in front of its loop: an end with a message, or a listening socket.
pub data Started : Type 0 where
  usage no_socket : Started
  not_bound not_listening : Effect → Started
  listens : (socketfd : ℕ) → Started

-- `argc`, and what `socket`, `bind` and `listen` return; `socket` gives a descriptor or -1.
unfoldable pub start_server : (argc : ℕ) (socketfd : ℤ) (bound listening : ℤ) → Started
start_server argc (negsuc n) bound listening = if not (argc == 2) then usage else no_socket
start_server argc (pos fd) bound listening =
    if not (argc == 2)
    then usage
    else if not (bound ==ℤ pos 0)
    then not_bound (close fd)
    else if not (listening ==ℤ pos 0)
    then not_listening (close fd)
    else listens fd

-- `MAX_CLIENTS`
abbrev pub max_clients : ℕ
max_clients = 2

-- The global variables, and the clients whose handlers run, the latest first.
pub record House : Type 0 where
  pub server : Server
  pub handlers : List ℕ

-- Static storage, with nothing allocated.
abbrev pub empty_house : House
empty_house = record {
  server = record {
    state = wait_clients;
    askerfd = 0;
    answererfd = 0;
    heap = λ _. none;
    head = none;
    asker = none;
    answerer = none;
    actives = pos 0;
  };
  handlers = [];
}

-- A round of the loop in `main`: `accept` gives `connfd`, `malloc` the address `c`, and `started` says
-- whether `pthread_create` succeeds.
unfoldable pub accept_round : (connfd : ℤ) (c : ℕ) (started : Bool) → House → House × List Effect
accept_round (negsuc n) c started h = (h, [])
accept_round (pos fd) c started h =
    if h.server.actives ==ℤ pos max_clients
    then (h, [])
    else (let r = insert c fd started h.server in
        (record { server = r.0; handlers = if started then c ∷ h.handlers else h.handlers }, r.1))

-- A descriptor that `accept` can give: none of the standard streams, and no client's.
abbrev pub IsFresh : ℕ → House → Type 0
IsFresh fd h = (2 < fd) × ((a : ℕ) (c : Client) → h.server.heap a ≡ some c → fd ≢ c.fd)

-- As long as no handler ends, threads can be started, and there is a zero byte in each buffer that a
-- `read` leaves: without one, `strlen` makes a bad access, which this relation has no state for
-- (`handle-unterminated` in Chat/Relay).
pub data Step (h : House) : House → Type 0 where
  refused : (n c : ℕ) (started : Bool) → Step h (accept_round (negsuc n) c started h).0
  accepted :
      (fd c : ℕ) → h.server.heap c ≡ none → IsFresh fd h → Step h (accept_round (pos fd) c true h).0
  handled :
      (k c : ℕ) (size : ℤ) (buffer text left : List ℕ) (s : Server) (out : List Effect)
      → c ∈ h.handlers
      → text_of buffer ≡ ok text
      → handle k c size buffer h.server ≡ ok (goes_on s left out)
      → Step h (record h { server = s })

pub data Reach : House → Type 0 where
  opened : Reach empty_house
  then_step : {h h' : House} → Reach h → Step h h' → Reach h'
