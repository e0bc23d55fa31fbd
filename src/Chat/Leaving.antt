-- ===== src/Chat/Leaving.antt =====
-- The end of a conversation in `client_handler` of hw8-jli230-main/C/hw8a.c.
use cs361_projects.Prelude.{
  ℕ, ◌<◌, ◌≡◌, refl, ap, sym, ◌∙◌, ◌≢◌, true, false, none, some, List, [], ◌∷◌, arith, ◌==◌,
}
use cs361_projects.Prelude.Int.{
  ℤ, pos, pos_part, neg_part, +ℤ_parts, eq_of_parts, ◌≤ℤ◌, ◌+ℤ◌, leb_ℤ,
}
use cs361_projects.Prelude.Links.{update}
use cs361_projects.Chat.{
  Client, Heap, Server, exit, is_wait_clients, inactive, notice, Effect, send, close, party_left,
  Pool, ok, bad_access, load, deactivate, remove_inactives, hang_up, ends, handle,
}
use cs361_projects.Chat.Removal.{Nodes, survivors, gone, leaves, remove_inactives-survivors}

-- Both clients of a conversation: the answerer at `b` in front of the asker at `a`.
pub record Talking (s : Server) (a b : ℕ) (asker answerer : Client) : Type 0 where
  pub asker_at : s.asker ≡ some a
  pub answerer_at : s.answerer ≡ some b
  pub head_at : s.head ≡ some b
  pub at_a : s.heap a ≡ some asker
  pub at_b : s.heap b ≡ some answerer
  pub linked : answerer.next ≡ some a
  pub last : asker.next ≡ none
  pub apart : a ≢ b
  pub asker_fd : asker.fd ≡ s.askerfd
  pub answerer_fd : answerer.fd ≡ s.answererfd
  pub fds_apart : s.askerfd ≢ s.answererfd
  pub two : s.actives ≡ pos 2

deactivate-ok :
    (h : Heap) (a : ℕ) (c : Client)
    → h a ≡ some c
    → deactivate (some a) h ≡ ok (update h a (some (record c { status = inactive })))
unfolding deactivate
deactivate-ok h a c e = rw (e, deactivate)

pub load-client : (h : Heap) (a : ℕ) (c : Client) → h a ≡ some c → load h (some a) ≡ ok c
load-client h a c e = rw (e, load)

load-freed : (h : Heap) (a : ℕ) → h a ≡ none → load h (some a) ≡ bad_access
load-freed h a e = rw (e, load)

hang_up-freed : (k c : ℕ) (s : Server) → s.heap c ≡ none → hang_up k c s ≡ bad_access
unfolding hang_up
hang_up-freed k c s e = rw (hang_up, load-freed s.heap c e) refl

remove_inactives-empty : (k : ℕ) (p : Pool) → p.head ≡ none → remove_inactives k p ≡ ok p
unfolding remove_inactives
remove_inactives-empty k p e = rw (remove_inactives, e) (ap (λ x. ok (record p { head = x })) e)

two_less : (z : ℤ) → pos 2 ≡ z +ℤ pos 2 → z ≡ pos 0
two_less z h =
    eq_of_parts z (pos 0) (omega (arith, +ℤ_parts z (pos 2), ap pos_part h, ap neg_part h))

inactive_of : Client → Client
inactive_of c = record c { status = inactive }

module _ (k : ℕ) (s : Server) (a b : ℕ) (asker answerer : Client)
    (t : Talking s a b asker answerer) where
  quitters : List (ℕ × Client)
  quitters = (b, inactive_of answerer) ∷ (a, inactive_of asker) ∷ []

  quitters-Nodes :
      (h : Heap)
      → h a ≡ some (inactive_of asker)
      → h b ≡ some (inactive_of answerer)
      → Nodes h s.head quitters
  unfolding quitters inactive_of
  quitters-Nodes h at_a at_b = (
    t.head_at,
    some a,
    at_b ∙ ap (λ x. some (record answerer { status = inactive; next = x })) t.linked,
    (refl, none, at_a ∙ ap (λ x. some (record asker { status = inactive; next = x })) t.last, refl),
  )

  -- With both inactive on a heap, nothing is left of them.
  both_removed :
      (h : Heap)
      → 2 < k
      → h a ≡ some (inactive_of asker)
      → h b ≡ some (inactive_of answerer)
      → ((x : ℕ) → x ≢ a → x ≢ b → h x ≡ s.heap x)
      → (r : Pool) × (remove_inactives k (record { heap = h; head = s.head; actives = s.actives })
          ≡ ok r)
        × (r.head ≡ none)
        × (r.actives ≡ pos 0)
        × (r.heap a ≡ none)
        × (r.heap b ≡ none)
        × ((x : ℕ) → x ≢ a → x ≢ b → r.heap x ≡ s.heap x)
  unfolding survivors gone leaves quitters inactive_of
  both_removed h enough at_a at_b others =
      let (r, done, nodes, swept, same) =
        remove_inactives-survivors k quitters
          (record { heap = h; head = s.head; actives = s.actives }) (quitters-Nodes h at_a at_b)
          (ground arith, (refl, tt)) enough in
      (
        r,
        done,
        nodes,
        two_less r.actives (sym t.two ∙ swept.counted),
        swept.freed a (ground arith),
        swept.freed b (ground arith),
        λ x na nb. same x (ground arith) ∙ others x na nb,
      )

  asker_out : Heap
  asker_out =
      update (update s.heap a (some (record asker { status = inactive }))) b
        (some (record answerer { status = inactive }))

  hang_up-asker_with :
      (r : Pool)
      → remove_inactives k (record { heap = asker_out; head = s.head; actives = s.actives }) ≡ ok r
      → r.head ≡ none
      → r.actives ≡ pos 0
      → hang_up k a s
        ≡ ok (
          record s { state = exit; heap = r.heap; head = none; actives = pos 0 },
          close s.askerfd ∷ send s.answererfd (notice party_left) ∷ close s.answererfd ∷ [],
        )
  unfolding hang_up asker_out
  hang_up-asker_with r done headless none_left =
      let one : Heap = update s.heap a (some (record asker { status = inactive })) in
      let not_answerer : (asker.fd == s.answererfd) ≡ false =
        ground (arith, t.asker_fd, t.fds_apart) in
      let there : one b ≡ some answerer = ground (arith, t.apart, t.at_b) in
      rw
        (
          load-client s.heap a asker t.at_a,
          deactivate-ok s.heap a asker t.at_a,
          not_answerer,
          t.answerer_at,
          deactivate-ok one b answerer there,
          done,
          remove_inactives-empty k r headless,
          headless,
          none_left,
          t.asker_fd,
        )
        refl

  -- When the connection of the asker in a conversation of two ends (with fuel above 2), the
  -- answerer is told, both connections are closed, both clients' memory is free and no other
  -- memory is touched, and the server counts no client.
  pub hang_up-asker :
      2 < k
      → (h : Heap) × (hang_up k a s
          ≡ ok (
            record s { state = exit; heap = h; head = none; actives = pos 0 },
            close s.askerfd ∷ send s.answererfd (notice party_left) ∷ close s.answererfd ∷ [],
          ))
        × (h a ≡ none)
        × (h b ≡ none)
        × ((x : ℕ) → x ≢ a → x ≢ b → h x ≡ s.heap x)
  unfolding asker_out inactive_of
  hang_up-asker enough =
      let (r, done, headless, none_left, freed_a, freed_b, same) =
        both_removed asker_out enough (ground (arith, t.apart)) (ground (arith, t.apart))
          (λ x na nb. ground arith) in
      (r.heap, hang_up-asker_with r done headless none_left, freed_a, freed_b, same)

  answerer_out : Heap
  answerer_out =
      update (update s.heap b (some (record answerer { status = inactive }))) a
        (some (record asker { status = inactive }))

  hang_up-answerer_with :
      (r : Pool)
      → remove_inactives k (record { heap = answerer_out; head = s.head; actives = s.actives })
        ≡ ok r
      → r.head ≡ none
      → r.actives ≡ pos 0
      → hang_up k b s
        ≡ ok (
          record s { state = exit; heap = r.heap; head = none; actives = pos 0 },
          close s.answererfd ∷ send s.askerfd (notice party_left) ∷ close s.askerfd ∷ [],
        )
  unfolding hang_up answerer_out
  hang_up-answerer_with r done headless none_left =
      let one : Heap = update s.heap b (some (record answerer { status = inactive })) in
      let is_answerer : (answerer.fd == s.answererfd) ≡ true =
        ground (arith, t.answerer_fd, t.fds_apart) in
      let there : one a ≡ some asker = ground (arith, t.apart, t.at_a) in
      rw
        (
          load-client s.heap b answerer t.at_b,
          deactivate-ok s.heap b answerer t.at_b,
          is_answerer,
          t.asker_at,
          deactivate-ok one a asker there,
          done,
          remove_inactives-empty k r headless,
          headless,
          none_left,
          t.answerer_fd,
        )
        refl

  -- When the connection of the answerer in a conversation of two ends (with fuel above 2),
  -- the asker is told, both connections are closed, both clients' memory is free and no
  -- other memory is touched, and the server counts no client.
  pub hang_up-answerer :
      2 < k
      → (h : Heap) × (hang_up k b s
          ≡ ok (
            record s { state = exit; heap = h; head = none; actives = pos 0 },
            close s.answererfd ∷ send s.askerfd (notice party_left) ∷ close s.askerfd ∷ [],
          ))
        × (h a ≡ none)
        × (h b ≡ none)
        × ((x : ℕ) → x ≢ a → x ≢ b → h x ≡ s.heap x)
  unfolding answerer_out inactive_of
  hang_up-answerer enough =
      let (r, done, headless, none_left, freed_a, freed_b, same) =
        both_removed answerer_out enough (ground (arith, t.apart)) (ground (arith, t.apart))
          (λ x na nb. ground arith) in
      (r.heap, hang_up-answerer_with r done headless none_left, freed_a, freed_b, same)

  -- When the asker's read has failed in a conversation of two (with fuel above 2, and not in
  -- the state `WAIT_CLIENTS`), its handler ends, and the handler of the answerer has lost
  -- its own client: when its read fails in turn, it reads memory that has been freed.
  pub hang_up-answerer_left :
      (size size' : ℤ) (buffer buffer' : List ℕ)
      → 2 < k
      → size ≤ℤ pos 0
      → size' ≤ℤ pos 0
      → is_wait_clients s.state ≡ false
      → (s' : Server) × (es : List Effect) × (handle k a size buffer s ≡ ok (ends s' es))
        × (handle k b size' buffer' s' ≡ bad_access)
  unfolding handle hang_up
  hang_up-answerer_left size size' buffer buffer' enough failed failed' talking =
      let (h, done, free_a, free_b, same) = hang_up-asker enough in
      let over : leb_ℤ size (pos 0) ≡ true = ground (arith, failed) in
      let over' : leb_ℤ size' (pos 0) ≡ true = ground (arith, failed') in
      (
        record s { state = exit; heap = h; head = none; actives = pos 0 },
        close s.askerfd ∷ send s.answererfd (notice party_left) ∷ close s.answererfd ∷ [],
        rw (handle, over, talking, done) refl,
        rw
            (
              handle,
              over',
              hang_up-freed k b (record s { state = exit; heap = h; head = none; actives = pos 0 })
                  free_b,
            )
            refl,
      )
