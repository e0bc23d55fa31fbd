-- ===== src/Epoll/Relay.antt =====
-- Messages in hw8-jli230-main/C/hw8b.c, beside those in hw8a.c.
use mathlib.Core.List.{append_assoc}
use cs361_projects.Prelude.{
  ℕ, ◌<◌, ◌≤◌, ◌≡◌, ◌≢◌, refl, ap, sym, ◌∙◌, true, false, none, List, [], ◌∷◌, ◌++◌, map, arith,
  ◌==◌, leb, length, All,
}
use cs361_projects.Prelude.Int.{pos}
use cs361_projects.Chat
use cs361_projects.Chat.{Server, State, Effect}
use cs361_projects.Chat.Relay.{IsText, converse, listeners, InTurn, converse-InTurn}
use cs361_projects.Epoll.{
  Epoll, Got, failed, bytes, Event, readable, ok, bad_access, buf_size, text_of, relay, on_readable,
  on_event, on_events, serve,
}

-- The server of hw8a.c with the same conversation, and no client on its list.
abbrev pub threaded : Epoll → Server
threaded e = record {
  state = e.state;
  askerfd = e.askerfd;
  answererfd = e.answererfd;
  heap = λ a. none;
  head = none;
  asker = none;
  answerer = none;
  actives = pos e.actives;
}

relay-threaded :
    (fd : ℕ) (text : List ℕ) (e : Epoll)
    → (relay fd text e).0 ≡ record e { state = (Chat.relay fd text (threaded e)).0 }
unfolding relay Chat.relay
relay-threaded fd text e = ground arith

relay-threaded_effects :
    (fd : ℕ) (text : List ℕ) (e : Epoll) → (relay fd text e).1 ≡ (Chat.relay fd text (threaded e)).1
unfolding relay Chat.relay
relay-threaded_effects fd text e = ground arith

-- A text that one `read` takes, with room for the zero byte.
abbrev pub IsMessage : ℕ × List ℕ → Type 0
IsMessage m = (0 < length m.1) × (length m.1 < buf_size) × IsText m.1

-- What does not fit into the buffer, and a failure, of which the size is -1.
abbrev pub Overruns : Got → Type 0
Overruns failed = Unit
Overruns (bytes bs) = buf_size ≤ length bs

abbrev pub events : List (ℕ × List ℕ) → List Event
events ms = map (λ m. readable m.0 (bytes m.1)) ms

unfoldable pub all_messages : List (List (ℕ × List ℕ)) → List (ℕ × List ℕ)
all_messages [] = []
all_messages (ms ∷ mss) = ms ++ all_messages mss

after : List (ℕ × List ℕ) → Epoll → Epoll
after [] e = e
after (m ∷ ms) e = after ms (relay m.0 m.1 e).0

text_of-IsText : (t : List ℕ) → IsText t → text_of t ≡ t
unfolding text_of
text_of-IsText [] h = refl
text_of-IsText (b ∷ t) h = rw h.0 (ap (λ z. b ∷ z) (text_of-IsText t h.1))

on_readable-message :
    (fd : ℕ) (t : List ℕ) (e : Epoll)
    → IsMessage (fd, t)
    → on_event (readable fd (bytes t)) e ≡ ok ((relay fd t e).0, (relay fd t e).1, true)
unfolding on_event on_readable
on_readable-message fd t e (some_bytes, few, h) =
    let room : leb buf_size (length t) ≡ false = ground arith in
    let full : (length t == 0) ≡ false = ground arith in rw (room, full, text_of-IsText t h) refl

converse-step :
    (m : ℕ × List ℕ) (ms : List (ℕ × List ℕ)) (e : Epoll)
    → converse (m ∷ ms) (threaded e)
      ≡ (relay m.0 m.1 e).1 ++ converse ms (threaded (relay m.0 m.1 e).0)
unfolding converse
converse-step m ms e = rw (relay-threaded m.0 m.1 e, relay-threaded_effects m.0 m.1 e) refl

converse_none : (e : Epoll) → converse [] (threaded e) ≡ []
unfolding converse
converse_none e = refl

on_events-after :
    (ms : List (ℕ × List ℕ)) (e : Epoll)
    → All IsMessage ms
    → on_events (events ms) e ≡ ok (after ms e, converse ms (threaded e))
unfolding on_events after
on_events-after [] e h = ap (λ es. ok (e, es)) (sym (converse_none e))
on_events-after (m ∷ ms) e h =
    rw (on_events, on_readable-message m.0 m.1 e h.0, on_events-after ms (relay m.0 m.1 e).0 h.1)
      (ap (λ es. ok (after ms (relay m.0 m.1 e).0, es)) (sym (converse-step m ms e)))

converse-append :
    (ms ns : List (ℕ × List ℕ)) (e : Epoll)
    → converse (ms ++ ns) (threaded e)
      ≡ converse ms (threaded e) ++ converse ns (threaded (after ms e))
unfolding after
converse-append [] ns e = ap (λ es. es ++ converse ns (threaded e)) (sym (converse_none e))
converse-append (m ∷ ms) ns e =
    converse-step m (ms ++ ns) e
    ∙ ap (λ es. (relay m.0 m.1 e).1 ++ es) (converse-append ms ns (relay m.0 m.1 e).0)
    ∙ sym (
        append_assoc (relay m.0 m.1 e).1 (converse ms (threaded (relay m.0 m.1 e).0))
          (converse ns (threaded (after (m ∷ ms) e))))
    ∙ ap (λ es. es ++ converse ns (threaded (after (m ∷ ms) e))) (sym (converse-step m ms e))

after-append : (ms ns : List (ℕ × List ℕ)) (e : Epoll) → after (ms ++ ns) e ≡ after ns (after ms e)
unfolding after
after-append [] ns e = refl
after-append (m ∷ ms) ns e = after-append ms ns (relay m.0 m.1 e).0

serve-converse :
    (mss : List (List (ℕ × List ℕ))) (e : Epoll)
    → All (All IsMessage) mss
    → serve (map events mss) e
      ≡ ok (after (all_messages mss) e, converse (all_messages mss) (threaded e))
unfolding serve all_messages after
serve-converse [] e h = ap (λ es. ok (e, es)) (sym (converse_none e))
serve-converse (ms ∷ mss) e h =
    rw (serve, on_events-after ms e h.0, serve-converse mss (after ms e) h.1)
      (rw (after-append ms (all_messages mss) e) (
        ap (λ es. ok (after (all_messages mss) (after ms e), es))
          (sym (converse-append ms (all_messages mss) e))))

-- For two clients of different descriptors and messages of 1 to 99 bytes with no zero byte, in
-- whatever portions epoll reports them, the server of hw8b.c sends exactly what `relay`, the branch
-- for messages in the `client_handler` of hw8a.c, sends for the same texts one after the other (each
-- text alone, without what hw8a.c may have left of former ones in its buffer), and what is passed on
-- alternates between the two, from the one whose turn it is.
pub serve-InTurn :
    (mss : List (List (ℕ × List ℕ))) (e : Epoll)
    → e.askerfd ≢ e.answererfd
    → All (All IsMessage) mss
    → (e' : Epoll) × (es : List Effect) × (serve (map events mss) e ≡ ok (e', es))
      × (es ≡ converse (all_messages mss) (threaded e))
      × InTurn (threaded e) e.state (listeners es)
serve-InTurn mss e apart h = (
  after (all_messages mss) e,
  converse (all_messages mss) (threaded e),
  serve-converse mss e h,
  refl,
  converse-InTurn (threaded e) (all_messages mss) apart,
)

-- A read that fails, or that fills the buffer, makes the server write out of the buffer's
-- bounds, whatever comes behind it.
pub on_readable-overrun :
    (fd : ℕ) (got : Got) (evs : List Event) (rest : List (List Event)) (e : Epoll)
    → Overruns got
    → serve ((readable fd got ∷ evs) ∷ rest) e ≡ bad_access
unfolding serve on_events on_event on_readable
on_readable-overrun fd failed evs rest e h = refl
on_readable-overrun fd (bytes bs) evs rest e h =
    let full : leb buf_size (length bs) ≡ true = ground arith in rw full refl
