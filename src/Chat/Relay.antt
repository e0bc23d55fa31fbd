-- ===== src/Chat/Relay.antt =====
-- Messages in the `client_handler` of hw8-jli230-main/C/hw8a.c: whose turn it is, and the buffer.
use mathlib.Core.List.{append_assoc}
use cs361_projects.Prelude.{
  ◌∙◌, ℕ, ◌≡◌, refl, ap, sym, Option, ◌≢◌, inl, inr, Bool, true, false, some, List, [], ◌∷◌, ◌++◌,
  arith, ◌==◌, Bool-cases, length, All,
}
use cs361_projects.Prelude.Int.{ℤ, pos, leb_ℤ, ◌<ℤ◌}
use cs361_projects.Chat.{
  Client, State, wait_clients, wait_asker, wait_answerer, exit, Server, notice, message, Effect,
  send, close, ok, bad_access, relay, text_of, clear_text, patience, load, goes_on, handle,
  you_may_ask_another, awaiting_question,
}

-- The messages of clients, by descriptor, that reach a handler one after the other, and what is sent
-- in answer to them.
unfoldable pub converse : List (ℕ × List ℕ) → Server → List Effect
converse [] s = []
converse ((fd, text) ∷ ms) s =
    let r : State × List Effect × Bool = relay fd text s in
    r.1 ++ converse ms (record s { state = r.0 })

-- Who is sent a client's words.
pub listeners : List Effect → List ℕ
listeners [] = []
listeners (send fd (notice t) ∷ es) = listeners es
listeners (send fd (message t) ∷ es) = fd ∷ listeners es
listeners (close fd ∷ es) = listeners es

abbrev pub Alternates : ℕ → ℕ → List ℕ → Type 0
Alternates a b [] = Unit
Alternates a b (x ∷ xs) = (x ≡ a) × Alternates b a xs

-- Whose turn it is to be listened to, in the two states of a conversation.
abbrev pub InTurn : Server → State → List ℕ → Type 0
InTurn s wait_asker xs = Alternates s.answererfd s.askerfd xs
InTurn s wait_answerer xs = Alternates s.askerfd s.answererfd xs
InTurn s _ xs = Unit

talk-InTurn :
    (s : Server)
    → s.askerfd ≢ s.answererfd
    → (ms : List (ℕ × List ℕ)) (state : State)
    → InTurn s state (listeners (converse ms (record s { state = state })))
unfolding converse listeners relay
talk-InTurn s apart ms wait_clients = tt
talk-InTurn s apart ms exit = tt
talk-InTurn s apart [] wait_asker = tt
talk-InTurn s apart [] wait_answerer = tt
talk-InTurn s apart ((fd, text) ∷ ms) wait_asker = elim (Bool-cases (fd == s.answererfd)) [
  | inl late ↦ rw late (talk-InTurn s apart ms wait_asker)
  | inr other ↦ elim (Bool-cases (fd == s.askerfd)) [
    | inl turn ↦ rw (other, turn) (refl, talk-InTurn s apart ms wait_answerer)
    | inr stranger ↦ rw (other, stranger) (talk-InTurn s apart ms wait_asker)
  ]
]
talk-InTurn s apart ((fd, text) ∷ ms) wait_answerer = elim (Bool-cases (fd == s.answererfd)) [
  | inl turn ↦ rw turn (refl, talk-InTurn s apart ms wait_asker)
  | inr other ↦ elim (Bool-cases (fd == s.askerfd)) [
    | inl late ↦ rw (other, late) (talk-InTurn s apart ms wait_answerer)
    | inr stranger ↦ rw (other, stranger) (talk-InTurn s apart ms wait_answerer)
  ]
]

-- For two clients of different descriptors, however they talk across each other, what is
-- passed on alternates: while the asker is waited for, the answerer is the next to hear the
-- other's words, then the asker, and so on in turn; while the answerer is waited for, the
-- other way round.
pub converse-InTurn :
    (s : Server) (ms : List (ℕ × List ℕ))
    → s.askerfd ≢ s.answererfd
    → InTurn s s.state (listeners (converse ms s))
converse-InTurn s ms apart = talk-InTurn s apart ms s.state

abbrev pub IsText : List ℕ → Type 0
IsText t = All (λ b. (b == 0) ≡ false) t

text_of-append : (t rest : List ℕ) → IsText t → text_of (t ++ 0 ∷ rest) ≡ ok t
unfolding text_of
text_of-append [] rest h = refl
text_of-append (b ∷ t) rest h = rw (text_of, h.0, text_of-append t rest h.1)

unfoldable pub zeros : List ℕ → List ℕ
zeros [] = []
zeros (b ∷ t) = 0 ∷ zeros t

clear_text-append : (t rest : List ℕ) → IsText t → clear_text (t ++ 0 ∷ rest) ≡ zeros t ++ 0 ∷ rest
unfolding clear_text zeros
clear_text-append [] rest h = refl
clear_text-append (b ∷ t) rest h = rw (clear_text, h.0, clear_text-append t rest h.1)

-- A buffer with no zero byte: `strlen` runs past its end.
text_of-unterminated : (buffer : List ℕ) → IsText buffer → text_of buffer ≡ bad_access
unfolding text_of
text_of-unterminated [] h = refl
text_of-unterminated (b ∷ bs) h = rw (text_of, h.0, text_of-unterminated bs h.1)

-- When a read has filled the whole buffer, with no zero byte, the handler reads past the
-- buffer.
handle-unterminated :
    (k c : ℕ) (size : ℤ) (b : ℕ) (bs : List ℕ) (s : Server)
    → pos 0 <ℤ size
    → IsText (b ∷ bs)
    → handle k c size (b ∷ bs) s ≡ bad_access
unfolding handle
handle-unterminated k c size b bs s some_read h =
    let read_ok : leb_ℤ size (pos 0) ≡ false = ground arith in
    rw (read_ok, h.0, text_of-unterminated (b ∷ bs) h)

-- Overwriting the start of a buffer, as `read` does.
abbrev pub read_into : List ℕ → List ℕ → List ℕ
read_into [] buffer = buffer
read_into (b ∷ t) [] = []
read_into (b ∷ t) (x ∷ buffer) = b ∷ read_into t buffer

read_into-append : (t u rest : List ℕ) → length t ≡ length u → read_into t (u ++ rest) ≡ t ++ rest
read_into-append [] [] rest e = refl
read_into-append [] (x ∷ u) rest e = absurd (omega arith)
read_into-append (b ∷ t) [] rest e = absurd (omega arith)
read_into-append (b ∷ t) (x ∷ u) rest e = rw (read_into-append t u rest (omega arith))

stale_buffer :
    (t u v w : List ℕ) → length t ≡ length u → read_into u ((t ++ v) ++ w) ≡ (u ++ v) ++ w
stale_buffer t u v w e =
    ap (read_into u) (append_assoc t v w)
    ∙ read_into-append u t (v ++ w) (sym e)
    ∙ sym (append_assoc u v w)

load-ok : (h : ℕ → Option Client) (a : ℕ) (c : Client) → h a ≡ some c → load h (some a) ≡ ok c
load-ok h a c e = rw (e, load)

relay-question :
    (s : Server) (text : List ℕ)
    → s.askerfd ≢ s.answererfd
    → s.state ≡ wait_asker
    → relay s.askerfd text s ≡ (
      wait_answerer,
      send s.answererfd (notice "Question: ") ∷ send s.answererfd (message text) ∷ [],
      true,
    )
unfolding relay
relay-question s text apart turn = ground arith

relay-early :
    (s : Server) (text : List ℕ)
    → s.askerfd ≢ s.answererfd
    → s.state ≡ wait_answerer
    → relay s.askerfd text s ≡ (wait_answerer, send s.askerfd (notice patience) ∷ [], false)
unfolding relay
relay-early s text apart turn = ground arith

-- The asker's handler at address `a`.
module _ (k a : ℕ) (s : Server) (c : Client) (here : s.heap a ≡ some c) (me : c.fd ≡ s.askerfd)
    (apart : s.askerfd ≢ s.answererfd) where
  -- When the asker, whose descriptor is not the answerer's, is waited for and a read has
  -- given a question `b ∷ t` with no zero byte in it, the question goes to the answerer, the
  -- answerer is waited for, and the question is cleared from the buffer.
  handle-question :
      (size : ℤ) (b : ℕ) (t rest : List ℕ)
      → pos 0 <ℤ size
      → IsText (b ∷ t)
      → s.state ≡ wait_asker
      → handle k a size (b ∷ t ++ 0 ∷ rest) s
        ≡ ok (
            goes_on
              (record s { state = wait_answerer })
              (zeros (b ∷ t) ++ 0 ∷ rest)
              (send s.answererfd (notice "Question: ") ∷ send s.answererfd (message (b ∷ t)) ∷ []))
  unfolding handle
  handle-question size b t rest got h turn =
      let read_ok : leb_ℤ size (pos 0) ≡ false = ground arith in
      rw (
        read_ok,
        h.0,
        text_of-append (b ∷ t) rest h,
        load-ok s.heap a c here,
        me,
        relay-question s (b ∷ t) apart turn,
        clear_text-append (b ∷ t) rest h,
      )

  -- When the answerer is waited for and a read has given the asker, whose descriptor is not
  -- the answerer's, a text with no zero byte in it, the asker is told to be patient, the
  -- state stays, and the text stays in the buffer.
  handle-early :
      (size : ℤ) (b : ℕ) (t rest : List ℕ)
      → pos 0 <ℤ size
      → IsText (b ∷ t)
      → s.state ≡ wait_answerer
      → handle k a size (b ∷ t ++ 0 ∷ rest) s
        ≡ ok (goes_on s (b ∷ t ++ 0 ∷ rest) (send s.askerfd (notice patience) ∷ []))
  unfolding handle
  handle-early size b t rest got h turn =
      let read_ok : leb_ℤ size (pos 0) ≡ false = ground arith in
      rw
        (
          read_ok,
          h.0,
          text_of-append (b ∷ t) rest h,
          load-ok s.heap a c here,
          me,
          relay-early s (b ∷ t) apart turn,
        )
        (ap
          (λ st. ok (
            goes_on (record s { state = st }) (b ∷ t ++ 0 ∷ rest)
              (send s.askerfd (notice patience) ∷ [])))
          (sym turn))

relay-answer :
    (s : Server) (text : List ℕ)
    → s.state ≡ wait_answerer
    → relay s.answererfd text s ≡ (
      wait_asker,
      send s.askerfd (notice "Answer: ")
          ∷ send s.askerfd (message text)
          ∷ send s.askerfd (notice you_may_ask_another)
          ∷ send s.answererfd (notice awaiting_question)
          ∷ [],
      true,
    )
unfolding relay
relay-answer s text turn = ground arith

-- While the answerer is waited for, an answer `b ∷ t` that a read has given makes it the asker's turn.
handle-answer :
    (k a : ℕ) (s : Server) (c : Client) (size : ℤ) (b : ℕ) (t rest : List ℕ)
    → s.heap a ≡ some c
    → c.fd ≡ s.answererfd
    → pos 0 <ℤ size
    → IsText (b ∷ t)
    → s.state ≡ wait_answerer
    → (left : List ℕ) × (out : List Effect) × (handle k a size (b ∷ t ++ 0 ∷ rest) s
        ≡ ok (goes_on (record s { state = wait_asker }) left out))
unfolding handle
handle-answer k a s c size b t rest here me got h turn =
    let read_ok : leb_ℤ size (pos 0) ≡ false = ground arith in
    rw
      (
        read_ok,
        h.0,
        text_of-append (b ∷ t) rest h,
        load-ok s.heap a c here,
        me,
        relay-answer s (b ∷ t) turn,
      )
      (_, _, refl)

-- In a conversation in which the answerer is waited for: the asker's handler is given a message `b ∷ t ++
-- v` and turns it down; then the answerer's handler is given an answer `d ∷ w`; then a message `x ∷ u`, as
-- long as `b ∷ t`, is read into the buffer that the asker's handler was left with. The answerer is sent
-- `x ∷ u` with the rest `v` of the words that were turned down behind it. (The descriptors differ, the
-- messages hold no zero byte, and each buffer has one behind its message.)
pub stale_question :
    (k a a' : ℕ) (s : Server) (c c' : Client) (size₁ size₂ size₃ : ℤ) (b d x : ℕ)
    (t u v w rest rest' : List ℕ)
    → s.heap a ≡ some c
    → c.fd ≡ s.askerfd
    → s.heap a' ≡ some c'
    → c'.fd ≡ s.answererfd
    → s.askerfd ≢ s.answererfd
    → s.state ≡ wait_answerer
    → pos 0 <ℤ size₁
    → pos 0 <ℤ size₂
    → pos 0 <ℤ size₃
    → IsText (b ∷ t ++ v)
    → IsText (d ∷ w)
    → IsText (x ∷ u ++ v)
    → length t ≡ length u
    → (left left' left'' : List ℕ) × (out : List Effect) × (handle k a size₁
          (b ∷ (t ++ v) ++ 0 ∷ rest)
          s
        ≡ ok (goes_on s left (send s.askerfd (notice patience) ∷ [])))
      × (handle k a' size₂ (d ∷ w ++ 0 ∷ rest') s
          ≡ ok (goes_on (record s { state = wait_asker }) left' out))
      × (handle k a size₃ (read_into (x ∷ u) left) (record s { state = wait_asker })
          ≡ ok (
              goes_on
                (record s { state = wait_answerer })
                left''
                (send s.answererfd (notice "Question: ")
                  ∷ send s.answererfd (message (x ∷ u ++ v))
                  ∷ [])))
stale_question k a a' s c c' size₁ size₂ size₃ b d x t u v w rest rest' here me here' me' apart turn
      got₁ got₂ got₃ old answer new same =
    let s' : Server = record s { state = wait_asker } in
    let (left', out, answered) =
      handle-answer k a' s c' size₂ d w rest' here' me' got₂ answer turn in
    let asked = handle-question k a s' c here me apart size₃ x (u ++ v) rest got₃ new refl in
    (
      b ∷ (t ++ v) ++ 0 ∷ rest,
      left',
      zeros (x ∷ u ++ v) ++ 0 ∷ rest,
      out,
      handle-early k a s c here me apart size₁ b (t ++ v) rest got₁ old turn,
      answered,
      rw (stale_buffer t u v (0 ∷ rest) same) asked,
    )
