-- ===== src/Chat/Main/Rounds.antt =====
-- A round of a handler that goes on, in the server of hw8-jli230-main/C/hw8a.c.
use cs361_projects.Prelude.{
  ℕ, ◌≡◌, subst, ◌≢◌, ◌⊎◌, inl, inr, ◌&&◌, some, List, [], ◌∷◌, ◌==◌, Bool, Bool-cases,
  if◌then◌else◌, not,
}
use cs361_projects.Prelude.Int.{ℤ, pos, leb_ℤ}
use cs361_projects.Chat
use cs361_projects.Chat.{
  Client, Server, State, Effect, Run, ok, bad_access, out_of_fuel, goes_on, ends, relay, handle,
  text_of, load, is_wait_clients, hang_up, clear_text,
}
use cs361_projects.Chat.Leaving.{load-client}

-- A handler that goes on changes at most the state, as `relay` does for a text of its client.
abbrev pub OnlyState : Server → Client → Server → Type 0
OnlyState s client s' =
    (s' ≡ s) ⊎ ((text : List ℕ) × (s' ≡ record s { state = (relay client.fd text s).0 }))

left_over :
    (o : Run (Server × List Effect)) (s : Server) (left : List ℕ) (out : List Effect)
    → (Chat.◌>>=◌ o λ r. ok (ends r.0 r.1)) ≢ ok (goes_on s left out)
left_over (ok r) s left out e = cc
left_over bad_access s left out e = cc
left_over out_of_fuel s left out e = cc

passed_on :
    (o : Run (List ℕ)) (l : Run Client) (s s' : Server) (buffer left : List ℕ) (out : List Effect)
    (client : Client)
    → l ≡ ok client
    → (Chat.◌>>=◌ o λ text. Chat.◌>>=◌ l λ me.
        let r : State × List Effect × Bool = relay me.fd text s in
        ok (goes_on (record s { state = r.0 }) (if r.2 then clear_text buffer else buffer) r.1))
      ≡ ok (goes_on s' left out)
    → OnlyState s client s'
passed_on (ok text) (ok me) s s' buffer left out client here e =
    let same : me ≡ client = cc in
    inr (text, subst (λ z. s' ≡ record s { state = (relay z.fd text s).0 }) same cc)
passed_on (ok text) bad_access s s' buffer left out client here e = cc
passed_on (ok text) out_of_fuel s s' buffer left out client here e = cc
passed_on bad_access l s s' buffer left out client here e = cc
passed_on out_of_fuel l s s' buffer left out client here e = cc

pub handle-OnlyState :
    (k c : ℕ) (size : ℤ) (buffer left : List ℕ) (s s' : Server) (out : List Effect)
    (client : Client)
    → s.heap c ≡ some client
    → handle k c size buffer s ≡ ok (goes_on s' left out)
    → OnlyState s client s'
unfolding handle
handle-OnlyState k c size buffer left s s' out client here e =
    elim (Bool-cases (leb_ℤ size (pos 0) && not (is_wait_clients s.state))) [
      | inl over ↦ absurd (left_over (hang_up k c s) s' left out (rw over at e))
      | inr stays ↦ by_buffer buffer (rw stays at e)
    ]
  where
    by_buffer :
        (bs : List ℕ)
        → (elim bs [
          | [] ↦ bad_access
          | b ∷ bs' ↦
              if b == 0
              then ok (goes_on s (b ∷ bs') [])
              else (Chat.◌>>=◌ (text_of (b ∷ bs')) λ text. Chat.◌>>=◌ (load s.heap (some c)) λ me.
                  let r : State × List Effect × Bool = relay me.fd text s in
                  ok (
                    goes_on
                      (record s { state = r.0 })
                      (if r.2 then clear_text (b ∷ bs') else b ∷ bs')
                      r.1))
        ])
          ≡ ok (goes_on s' left out)
        → OnlyState s client s'
    by_buffer [] h = cc h
    by_buffer (b ∷ bs) h = elim (Bool-cases (b == 0)) [
      | inl silent ↦
          let h' : ok (goes_on s (b ∷ bs) []) ≡ ok (goes_on s' left out) = rw silent at h in inl cc
      | inr spoken ↦
          passed_on (text_of (b ∷ bs)) (load s.heap (some c)) s s' (b ∷ bs) left out client
            (load-client s.heap c client here) (rw spoken at h)
    ]
