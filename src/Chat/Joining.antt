-- ===== src/Chat/Joining.antt =====
-- `insert` of hw8-jli230-main/C/hw8a.c: how two clients come to a conversation.
use cs361_projects.Prelude.{ℕ, ◌≡◌, refl, ◌≢◌, true, none, some, [], ◌∷◌, arith}
use cs361_projects.Prelude.Int.{pos, ◌+ℤ◌}
use cs361_projects.Chat.{
  Client, Server, wait_clients, wait_asker, Role, active, send, notice, awaiting_answerer,
  awaiting_question, you_may_ask, enlist, insert,
}
use cs361_projects.Chat.Leaving.{Talking}
use cs361_projects.Prelude.Links.{update, update_self}

-- A client as `insert` makes it.
abbrev pub first_client : ℕ → Client
first_client fd = record { fd = fd; status = active; next = none; type = Role.asker }

abbrev pub second_client : ℕ → ℕ → Client
second_client fd a = record { fd = fd; status = active; next = some a; type = Role.answerer }

-- The server with one client.
abbrev pub alone : Server → (a fd : ℕ) → Server
alone s a fd = record s {
  heap = update s.heap a (some (first_client fd));
  state = wait_clients;
  askerfd = fd;
  head = some a;
  asker = some a;
  actives = pos 1;
}

-- The server with two.
abbrev pub together : Server → (a b fd fd' : ℕ) → Server
together s a b fd fd' = record (alone s a fd) {
  heap = update (update s.heap a (some (first_client fd))) b (some (second_client fd' a));
  state = wait_asker;
  answererfd = fd';
  head = some b;
  answerer = some b;
  actives = pos 2;
}

pub first_insert :
    (s : Server) (a fd : ℕ)
    → s.actives ≡ pos 0
    → s.head ≡ none
    → insert a fd true s ≡ (alone s a fd, send fd (notice awaiting_answerer) ∷ [])
unfolding insert enlist ◌+ℤ◌
first_insert s a fd nobody headless = rw (insert, enlist, nobody, headless) refl

second_insert :
    (s : Server) (a b fd fd' : ℕ)
    → insert b fd' true (alone s a fd) ≡ (
      together s a b fd fd',
      send fd' (notice awaiting_question) ∷ send fd (notice you_may_ask) ∷ [],
    )
unfolding insert enlist ◌+ℤ◌
second_insert s a b fd fd' = refl

pub together-Talking :
    (s : Server) (a b fd fd' : ℕ)
    → a ≢ b
    → fd ≢ fd'
    → Talking (together s a b fd fd') a b (first_client fd) (second_client fd' a)
together-Talking s a b fd fd' apart fds = record {
  asker_at = refl;
  answerer_at = refl;
  head_at = refl;
  at_a = ground arith;
  at_b = update_self (update s.heap a (some (first_client fd))) b (some (second_client fd' a));
  linked = refl;
  last = refl;
  apart = apart;
  asker_fd = refl;
  answerer_fd = refl;
  fds_apart = fds;
  two = refl;
}

-- Two clients of different descriptors who join an empty server at different addresses, their
-- threads started, are in a conversation: the first is the asker and is told to wait until the
-- second is there, the answerer; then the asker is told to ask, and the server waits for the
-- question.
pub insert-Talking :
    (s : Server) (a b fd fd' : ℕ)
    → s.actives ≡ pos 0
    → s.head ≡ none
    → a ≢ b
    → fd ≢ fd'
    → (s₁ s₂ : Server) × (insert a fd true s ≡ (s₁, send fd (notice awaiting_answerer) ∷ []))
      × (s₁.state ≡ wait_clients)
      × (insert b fd' true s₁
          ≡ (s₂, send fd' (notice awaiting_question) ∷ send fd (notice you_may_ask) ∷ []))
      × (s₂.state ≡ wait_asker)
      × Talking s₂ a b (first_client fd) (second_client fd' a)
insert-Talking s a b fd fd' nobody headless apart fds = (
  alone s a fd,
  together s a b fd fd',
  first_insert s a fd nobody headless,
  refl,
  second_insert s a b fd fd',
  refl,
  together-Talking s a b fd fd' apart fds,
)
