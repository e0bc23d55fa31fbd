-- ===== src/Chat.antt =====
-- hw8-jli230-main/C/hw8a.c: a server that passes questions and answers between two clients.
-- The clients are nodes at addresses on a heap, and `none` on the heap is memory that is not
-- allocated. An operation returns the new state and what it puts on the network, in order. What
-- `malloc`, `pthread_create` and `read` give is an argument; `malloc` is taken to succeed. Log output
-- is left out. A handler runs between two returns of `read` with no other thread in between.
pub mod Removal
pub mod Relay
pub mod Leaving
pub mod Joining
pub mod Main
mod Examples
use Prim.Native.String.{String}
use cs361_projects.Prelude.{
  ℕ, zero, suc, ◌+◌, ◌≡◌, Bool, true, false, ◌&&◌, ◌||◌, not, Option, none, some, List, [], ◌∷◌,
  ◌++◌, ◌==◌, if◌then◌else◌, length,
}
use cs361_projects.Prelude.Int.{ℤ, pos, ◌+ℤ◌, ◌-ℤ◌, leb_ℤ, ◌==ℤ◌}
use cs361_projects.Prelude.Links.{Ptr, update}

pub data State : Type 0 where
  wait_clients wait_asker wait_answerer exit : State

pub data Status : Type 0 where
  active inactive : Status

pub data Role : Type 0 where
  asker answerer : Role

-- `struct client`, less the thread.
pub record Client : Type 0 where
  pub fd : ℕ
  pub status : Status
  pub next : Ptr
  pub type : Role

abbrev pub Heap : Type 0
Heap = ℕ → Option Client

-- The global variables.
pub record Server : Type 0 where
  pub state : State
  pub askerfd : ℕ
  pub answererfd : ℕ
  pub heap : Heap
  pub head : Ptr
  pub asker : Ptr
  pub answerer : Ptr
  pub actives : ℤ

pub data Text : Type 0 where
  notice : String → Text
  message : List ℕ → Text

pub data Effect : Type 0 where
  send : ℕ → Text → Effect
  close : ℕ → Effect

-- A value, an access to memory that is not allocated or lies beyond a buffer, or more rounds than
-- the fuel allows.
pub data Run {ℓ} (A : Type ℓ) : Type ℓ where
  ok : A → Run A
  bad_access out_of_fuel : Run A

infixl 5 ◌>>=◌
abbrev pub ◌>>=◌ {ℓ κ} : {A : Type ℓ} {B : Type κ} → Run A → (A → Run B) → Run B
◌>>=◌ (ok a) f = f a
◌>>=◌ bad_access f = bad_access
◌>>=◌ out_of_fuel f = out_of_fuel

-- `*p`
abbrev pub load : Heap → Ptr → Run Client
load h none = bad_access
load h (some a) = elim (h a) [ none ↦ bad_access | some c ↦ ok c ]

abbrev pub is_inactive : Status → Bool
is_inactive active = false
is_inactive inactive = true

abbrev pub awaiting_answerer : String
awaiting_answerer = "Awaiting answerer...\n"

abbrev pub awaiting_question : String
awaiting_question = "Awaiting question...\n"

abbrev pub you_may_ask : String
you_may_ask = "You may now ask a question: \n"

abbrev pub you_may_ask_another : String
you_may_ask_another = "You may now ask another question: \n"

abbrev pub patience : String
patience = "Patience please\n"

abbrev pub party_left : String
party_left = "The other party has left the conversation\n"

-- The first half of `insert`: the new client's role, and what follows from it. `c` is the address
-- that `malloc` gives.
unfoldable pub enlist : ℕ → ℕ → Server → Server × List Effect
enlist c fd s =
    if s.actives ==ℤ pos 0
    then (
      record s {
        heap =
            update s.heap c
              (some (record { fd = fd; status = active; next = s.head; type = Role.asker }));
        state = wait_clients;
        askerfd = fd;
        asker = some c;
      },
      send fd (notice awaiting_answerer) ∷ [],
    )
    else (
      record s {
        heap =
            update s.heap c
              (some (record { fd = fd; status = active; next = s.head; type = Role.answerer }));
        state = wait_asker;
        answererfd = fd;
        answerer = some c;
      },
      send fd (notice awaiting_question) ∷ send s.askerfd (notice you_may_ask) ∷ [],
    )

-- `insert`; `started` says whether `pthread_create` has succeeded.
unfoldable pub insert : ℕ → ℕ → Bool → Server → Server × List Effect
unfolding enlist
insert c fd started s =
    let r : Server × List Effect = enlist c fd s in
    if started
    then (record (r.0) { head = some c; actives = s.actives +ℤ pos 1 }, r.1)
    else (record (r.0) { heap = update r.0.heap c none }, r.1 ++ close fd ∷ [])

-- What the loops of `remove_inactives` change.
pub record Pool : Type 0 where
  pub heap : Heap
  pub head : Ptr
  pub actives : ℤ

-- The first loop: inactive clients at the head.
unfoldable pub drop_head : ℕ → Pool → Run Pool
drop_head zero p = out_of_fuel
drop_head (suc k) p = elim p.head [
  | none ↦ ok p
  | some a ↦ elim (p.heap a) [
    | none ↦ bad_access
    | some c ↦ elim (is_inactive c.status) [
      | true ↦
          drop_head k
            (record { heap = update p.heap a none; head = c.next; actives = p.actives -ℤ pos 1 })
      | false ↦ ok p
    ]
  ]
]

-- `previous->next = next`
set_next : Heap → Ptr → Ptr → Run Heap
set_next h none next = bad_access
set_next h (some a) next = elim (h a) [
  | none ↦ bad_access
  | some c ↦ ok (update h a (some (record c { next = next })))
]

-- The second loop: inactive clients elsewhere.
unfoldable pub drop_rest : ℕ → (previous current : Ptr) → Pool → Run Pool
unfolding set_next
drop_rest zero previous current p = out_of_fuel
drop_rest (suc k) previous current p = elim current [
  | none ↦ ok p
  | some a ↦ elim (p.heap a) [
    | none ↦ bad_access
    | some c ↦ elim (is_inactive c.status) [
      | true ↦ set_next p.heap previous c.next >>= λ h.
          drop_rest k previous c.next
            (record p { heap = update h a none; actives = p.actives -ℤ pos 1 })
      | false ↦ drop_rest k (some a) c.next p
    ]
  ]
]

-- `remove_inactives`, with fuel for each loop.
unfoldable pub remove_inactives : ℕ → Pool → Run Pool
remove_inactives k p = elim p.head [
  | none ↦ ok p
  | some _ ↦ drop_head k p >>= λ q. drop_rest k none q.head q
]

abbrev pub pool_of : Server → Pool
pool_of s = record { heap = s.heap; head = s.head; actives = s.actives }

abbrev pub with_pool : Server → Pool → Server
with_pool s p = record s { heap = p.heap; head = p.head; actives = p.actives }

-- `c->status = INACTIVE`
unfoldable pub deactivate : Ptr → Heap → Run Heap
deactivate none h = bad_access
deactivate (some a) h = elim (h a) [
  | none ↦ bad_access
  | some c ↦ ok (update h a (some (record c { status = inactive })))
]

-- The branch of `client_handler` for a `read` that fails or meets the end, down to its `break`, and
-- the call behind the loop.
unfoldable pub hang_up : ℕ → ℕ → Server → Run (Server × List Effect)
hang_up k c s = load s.heap (some c) >>= λ client. deactivate (some c) s.heap >>= λ h.
    let from_answerer : Bool = client.fd == s.answererfd in
    let other : ℕ = if from_answerer then s.askerfd else s.answererfd in
    deactivate (if from_answerer then s.asker else s.answerer) h >>= λ h'.
    remove_inactives k (record { heap = h'; head = s.head; actives = s.actives }) >>= λ p.
    remove_inactives k p >>= λ p'. ok (
      record (with_pool s p') { state = exit },
      close client.fd ∷ send other (notice party_left) ∷ close other ∷ [],
    )

abbrev pub is_wait_asker : State → Bool
is_wait_asker wait_asker = true
is_wait_asker _ = false

abbrev pub is_wait_clients : State → Bool
is_wait_clients wait_clients = true
is_wait_clients _ = false

abbrev pub is_wait_answerer : State → Bool
is_wait_answerer wait_answerer = true
is_wait_answerer _ = false

-- The branch for a message: the new state, what is sent, and whether the buffer is cleared.
unfoldable pub relay : ℕ → List ℕ → Server → State × List Effect × Bool
relay fd text s =
    if fd == s.answererfd
    then (if is_wait_asker s.state then (s.state, send fd (notice patience) ∷ [], false) else (
      wait_asker,
      send s.askerfd (notice "Answer: ")
          ∷ send s.askerfd (message text)
          ∷ send s.askerfd (notice you_may_ask_another)
          ∷ send s.answererfd (notice awaiting_question)
          ∷ [],
      true,
    ))
    else if fd == s.askerfd
    then (if is_wait_clients s.state || is_wait_answerer s.state
        then (s.state, send fd (notice patience) ∷ [], false)
        else (
          wait_answerer,
          send s.answererfd (notice "Question: ") ∷ send s.answererfd (message text) ∷ [],
          true,
        ))
    else (s.state, [], true)

-- `strlen` and the text before the first zero byte of the buffer; beyond its end is no access.
unfoldable pub text_of : List ℕ → Run (List ℕ)
text_of [] = bad_access
text_of (b ∷ bs) = elim (b == 0) [ true ↦ ok [] | false ↦ text_of bs >>= λ t. ok (b ∷ t) ]

-- `while (buffer[i] != '\\0') { buffer[i] = '\\0'; i++; }`
unfoldable pub clear_text : List ℕ → List ℕ
clear_text [] = []
clear_text (b ∷ bs) = elim (b == 0) [ true ↦ b ∷ bs | false ↦ 0 ∷ clear_text bs ]

-- A handler goes on with its buffer, or has left its loop.
pub data After : Type 0 where
  goes_on : Server → List ℕ → List Effect → After
  ends : Server → List Effect → After

-- A round of the loop of `client_handler` for the client at `c`, behind a `read` that has given
-- `size` and left `buffer`.
unfoldable pub handle : ℕ → ℕ → ℤ → List ℕ → Server → Run After
handle k c size buffer s =
    if leb_ℤ size (pos 0) && not (is_wait_clients s.state)
    then (hang_up k c s >>= λ r. ok (ends r.0 r.1))
    else (elim buffer [
      | [] ↦ bad_access
      | b ∷ bs ↦
          if b == 0
          then ok (goes_on s (b ∷ bs) [])
          else (text_of (b ∷ bs) >>= λ text. load s.heap (some c) >>= λ client.
              let r : State × List Effect × Bool = relay client.fd text s in
              ok (
                goes_on (record s { state = r.0 }) (if r.2 then clear_text (b ∷ bs) else b ∷ bs)
                  r.1))
    ])
