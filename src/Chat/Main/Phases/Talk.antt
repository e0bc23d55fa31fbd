-- ===== src/Chat/Main/Phases/Talk.antt =====
-- A round of a handler of hw8-jli230-main/C/hw8a.c, in each phase.
use cs361_projects.Prelude.{
  false, ◌&&◌, not, refl, ℕ, ◌<◌, ◌≡◌, sym, subst, inl, inr, some, List, [], ◌∷◌, arith, ◌==◌,
  ==_iff, Bool-cases,
}
use cs361_projects.Prelude.Int.{ℤ, pos, leb_ℤ}
use cs361_projects.Prelude.Links.{◌∈◌}
use cs361_projects.Chat.{
  text_of, is_wait_clients, Client, Server, State, wait_clients, Effect, ok, goes_on, relay, handle,
}
use cs361_projects.Chat.Leaving.{load-client}
use cs361_projects.Chat.Main.Rounds.{OnlyState, handle-OnlyState}
use cs361_projects.Chat.Main.{House}
use cs361_projects.Chat.Main.Phases.{Waiting, Paired, Phase, InTalk}

relay-lonely :
    (s : Server) (fd : ℕ) (text : List ℕ)
    → s.state ≡ wait_clients
    → fd ≡ s.askerfd
    → s.answererfd ≡ 0
    → 2 < fd
    → (relay fd text s).0 ≡ wait_clients
unfolding relay
relay-lonely s fd text waits me nobody real = ground arith

relay-InTalk : (s : Server) (fd : ℕ) (text : List ℕ) → InTalk s.state → InTalk (relay fd text s).0
unfolding relay
relay-InTalk s fd text t = ground arith

abbrev pub with_server : House → Server → House
with_server h s = record h { server = s }

abbrev with_state : House → State → House
with_state h st = record h { server = record (h.server) { state = st } }

Waiting-state :
    (h : House) (a : ℕ) (c : Client) (st : State)
    → st ≡ wait_clients
    → Waiting h a c
    → Waiting (with_state h st) a c
Waiting-state h a c st same w = ground arith

Paired-state :
    (h : House) (a b : ℕ) (asker answerer : Client) (st : State)
    → InTalk st
    → Paired h a b asker answerer
    → Paired (with_state h st) a b asker answerer
Paired-state h a b asker answerer st t p = record {
  turn = t;
  talking =
      let t = p.talking in
      record {
        asker_at = t.asker_at;
        answerer_at = t.answerer_at;
        head_at = t.head_at;
        at_a = t.at_a;
        at_b = t.at_b;
        linked = t.linked;
        last = t.last;
        apart = t.apart;
        asker_fd = t.asker_fd;
        answerer_fd = t.answerer_fd;
        fds_apart = t.fds_apart;
        two = t.two;
      };
  two_handlers = p.two_handlers;
}

one_handler_round :
    (h : House) (a : ℕ) (c : Client) (s : Server)
    → Waiting h a c
    → OnlyState h.server c s
    → Phase (with_server h s)
one_handler_round h a c s w (inl same) =
    subst (λ z. Phase (with_server h z)) (sym same) (inr (inl (a, c, w)))
one_handler_round h a c s w (inr (text, e)) =
    subst (λ z. Phase (with_server h z)) (sym e)
      (inr (
        inl (
          a,
          c,
          Waiting-state h a c (relay c.fd text h.server).0
              (relay-lonely h.server c.fd text w.waits w.asker_fd w.no_answerer w.real_fd) w,
        )))

two_handlers_round :
    (h : House) (a b : ℕ) (asker answerer c : Client) (s : Server)
    → Paired h a b asker answerer
    → OnlyState h.server c s
    → Phase (with_server h s)
two_handlers_round h a b asker answerer c s p (inl same) =
    subst (λ z. Phase (with_server h z)) (sym same) (inr (inr (a, b, asker, answerer, p)))
two_handlers_round h a b asker answerer c s p (inr (text, e)) =
    subst (λ z. Phase (with_server h z)) (sym e)
      (inr (
        inr (
          a,
          b,
          asker,
          answerer,
          Paired-state h a b asker answerer (relay c.fd text h.server).0
              (relay-InTalk h.server c.fd text p.turn) p,
        )))

-- Whose handler runs is in memory.
client_there :
    (h : House) (a b c : ℕ) (asker answerer : Client)
    → Paired h a b asker answerer
    → c ∈ h.handlers
    → (client : Client) × (h.server.heap c ≡ some client)
client_there h a b c asker answerer p on =
    let on' : c ∈ b ∷ a ∷ [] = rw p.two_handlers at on in
    elim (Bool-cases (c == b)) [
      | inl same ↦ (answerer, rw ((==_iff c b).0 same) p.talking.at_b)
      | inr other ↦ let e : c ≡ a = ground arith in (asker, rw e p.talking.at_a)
    ]

-- Whose handler runs, in any phase.
handler_there :
    (h : House) (c : ℕ)
    → Phase h
    → c ∈ h.handlers
    → (client : Client) × (h.server.heap c ≡ some client)
handler_there h c (inl empty) on = absurd (ground (arith, empty.no_handlers))
handler_there h c (inr (inl (a, client, w))) on =
    let mine : c ≡ a = ground (arith, w.one_handler) in (client, rw mine w.at_a)
handler_there h c (inr (inr (a, b, asker, answerer, p))) on =
    client_there h a b c asker answerer p on

handle-goes_on :
    (k c : ℕ) (size : ℤ) (buffer text : List ℕ) (s : Server) (client : Client)
    → (leb_ℤ size (pos 0) && not (is_wait_clients s.state)) ≡ false
    → text_of buffer ≡ ok text
    → s.heap c ≡ some client
    → (s' : Server) × (left : List ℕ) × (out : List Effect) × (handle k c size buffer s
        ≡ ok (goes_on s' left out))
unfolding handle text_of
handle-goes_on k c size [] text s client stays t here = absurd (cc t)
handle-goes_on k c size (b ∷ bs) text s client stays t here = elim (Bool-cases (b == 0)) [
  | inl silent ↦ rw (stays, silent) (_, _, _, refl)
  | inr speaks ↦ rw (stays, speaks, t, load-client s.heap c client here) (_, _, _, refl)
]

pub handler_round-goes_on :
    (h : House) (k c : ℕ) (size : ℤ) (buffer text : List ℕ)
    → Phase h
    → c ∈ h.handlers
    → (leb_ℤ size (pos 0) && not (is_wait_clients h.server.state)) ≡ false
    → text_of buffer ≡ ok text
    → (s' : Server) × (left : List ℕ) × (out : List Effect) × (handle k c size buffer h.server
        ≡ ok (goes_on s' left out))
handler_round-goes_on h k c size buffer text phase on stays t =
    let (client, here) = handler_there h c phase on in
    handle-goes_on k c size buffer text h.server client stays t here

pub handled-Phase :
    (h : House) (k c : ℕ) (size : ℤ) (buffer left : List ℕ) (s : Server) (out : List Effect)
    → Phase h
    → c ∈ h.handlers
    → handle k c size buffer h.server ≡ ok (goes_on s left out)
    → Phase (with_server h s)
handled-Phase h k c size buffer left s out (inl empty) on e =
    absurd (ground (arith, empty.no_handlers))
handled-Phase h k c size buffer left s out (inr (inl (a, client, w))) on e =
    let mine : c ≡ a = ground (arith, w.one_handler) in
    one_handler_round h a client s w
      (handle-OnlyState k c size buffer left h.server s out client (rw mine w.at_a) e)
handled-Phase h k c size buffer left s out (inr (inr (a, b, asker, answerer, p))) on e =
    let (client, here) = client_there h a b c asker answerer p on in
    two_handlers_round h a b asker answerer client s p
      (handle-OnlyState k c size buffer left h.server s out client here e)
