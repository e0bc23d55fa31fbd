-- ===== src/Chat/Main/Phases/Join.antt =====
-- A round of the loop of `main` of hw8-jli230-main/C/hw8a.c that accepts somebody, in each phase.
use cs361_projects.Prelude.{
  ℕ, ◌≡◌, refl, sym, ap, ◌∙◌, ◌≢◌, inl, inr, true, false, none, some, ◌∷◌, arith, ◌==◌, ==_iff,
  Bool-cases,
}
use cs361_projects.Prelude.Int.{pos, ◌+ℤ◌, ◌==ℤ◌}
use cs361_projects.Prelude.Links.{update, update_self}
use cs361_projects.Chat.{Client, Server, wait_asker, Role, active, insert, enlist}
use cs361_projects.Chat.Joining.{first_client, alone, first_insert}
use cs361_projects.Chat.Main.{House, accept_round, IsFresh, max_clients}
use cs361_projects.Chat.Main.Phases.{Empty, Waiting, Paired, Phase}

-- Somebody joins.
abbrev joined : Server → (c fd : ℕ) → Server
joined s c fd = record s {
  heap =
      update s.heap c
        (some (record { fd = fd; status = active; next = s.head; type = Role.answerer }));
  state = wait_asker;
  answererfd = fd;
  answerer = some c;
  head = some c;
  actives = pos 2;
}

later_insert : (s : Server) (c fd : ℕ) → s.actives ≡ pos 1 → (insert c fd true s).0 ≡ joined s c fd
unfolding insert enlist ◌+ℤ◌
later_insert s c fd one =
    let some_one : (s.actives ==ℤ pos 0) ≡ false = ground arith in
    let sum : s.actives +ℤ pos 1 ≡ pos 2 = ap (λ z. z +ℤ pos 1) one in
    rw (insert, enlist, some_one, sum) refl

first_joins :
    (h : House) (fd c : ℕ)
    → Empty h
    → IsFresh fd h
    → Waiting
        (record { server = alone h.server c fd; handlers = c ∷ h.handlers })
        c
        (first_client fd)
first_joins h fd c empty fresh = record {
  waits = refl;
  one_counted = refl;
  head_at = refl;
  asker_at = refl;
  at_a = update_self h.server.heap c (some (first_client fd));
  last = refl;
  asker_fd = refl;
  real_fd = fresh.0;
  no_answerer = empty.no_answerer;
  one_handler = ap (λ cs. c ∷ cs) empty.no_handlers;
}

second_apart :
    (h : House) (c a : ℕ) (client : Client) → Waiting h a client → h.server.heap c ≡ none → a ≢ c
second_apart h c a client w free same =
    let e : none ≡ some client = sym free ∙ (ap h.server.heap (sym same) ∙ w.at_a) in absurd (cc e)

second_joins :
    (h : House) (fd c a : ℕ) (client : Client)
    → Waiting h a client
    → h.server.heap c ≡ none
    → IsFresh fd h
    → Paired
        (record { server = joined h.server c fd; handlers = c ∷ h.handlers })
        a
        c
        client
        (record { fd = fd; status = active; next = h.server.head; type = Role.answerer })
second_joins h fd c a client w free fresh = record {
  turn = inl refl;
  talking = record {
    asker_at = w.asker_at;
    answerer_at = refl;
    head_at = refl;
    at_a = elim (Bool-cases (c == a)) [
      | inl same ↦ absurd (second_apart h c a client w free (sym ((==_iff c a).0 same)))
      | inr other ↦ rw other w.at_a
    ];
    at_b = update_self h.server.heap c _;
    linked = w.head_at;
    last = w.last;
    apart = second_apart h c a client w free;
    asker_fd = w.asker_fd;
    answerer_fd = refl;
    fds_apart = λ e. fresh.1 a client w.at_a (sym e ∙ sym w.asker_fd);
    two = refl;
  };
  two_handlers = ap (λ cs. c ∷ cs) w.one_handler;
}

pub accepted-Phase :
    (h : House) (fd c : ℕ)
    → Phase h
    → h.server.heap c ≡ none
    → IsFresh fd h
    → Phase (accept_round (pos fd) c true h).0
unfolding accept_round
accepted-Phase h fd c (inl empty) free fresh =
    let room : (h.server.actives ==ℤ pos max_clients) ≡ false = rw empty.none_counted in
    rw (room, first_insert h.server c fd empty.none_counted empty.no_head)
      (inr (inl (c, first_client fd, first_joins h fd c empty fresh)))
accepted-Phase h fd c (inr (inl (a, client, w))) free fresh =
    let room : (h.server.actives ==ℤ pos max_clients) ≡ false = rw w.one_counted in
    rw (room, later_insert h.server c fd w.one_counted)
      (inr (inr (a, c, client, _, second_joins h fd c a client w free fresh)))
accepted-Phase h fd c (inr (inr (a, b, asker, answerer, p))) free fresh =
    let full : (h.server.actives ==ℤ pos max_clients) ≡ true = rw p.talking.two in
    rw full (inr (inr (a, b, asker, answerer, p)))
