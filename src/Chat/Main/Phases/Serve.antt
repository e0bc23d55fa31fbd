-- ===== src/Chat/Main/Phases/Serve.antt =====
-- The phases of the server of hw8-jli230-main/C/hw8a.c, over all its runs.
use cs361_projects.Prelude.{ℕ, ◌≡◌, false, ◌&&◌, not, List, refl, inl}
use cs361_projects.Prelude.Int.{ℤ, pos, leb_ℤ}
use cs361_projects.Prelude.Links.{◌∈◌}
use cs361_projects.Chat.{Server, Effect, ok, goes_on, handle, text_of, is_wait_clients}
use cs361_projects.Chat.Main.{
  House, Reach, refused, accepted, handled, opened, then_step, accept_round, empty_house,
}
use cs361_projects.Chat.Main.Phases.{Empty, Phase}
use cs361_projects.Chat.Main.Phases.Talk.{handled-Phase, handler_round-goes_on}
use cs361_projects.Chat.Main.Phases.Join.{accepted-Phase}

empty_house-Empty : Empty empty_house
empty_house-Empty = record {
  none_counted = refl;
  no_head = refl;
  no_answerer = refl;
  no_handlers = refl;
  no_memory = λ a. refl;
}

-- As long as no handler ends, threads can be started, each buffer that a `read` leaves has a zero byte in
-- it (without one the handler makes a bad access), and each accepted descriptor is above 2 and no
-- client's, each new address nobody else's, the server of hw8a.c is always in one of three phases,
-- however often somebody is turned away or `accept` fails: nobody is there, with nothing allocated and
-- no handler; or one asker waits, alone on the list, counted once, with the one handler, while nobody
-- is the answerer; or an asker and an answerer, apart in memory and with descriptors of their own, are
-- the two on the list, counted as two, with a handler each, and it is the turn of one of them.
pub Reach-Phase : {h : House} → Reach h → Phase h
unfolding accept_round
Reach-Phase opened = inl empty_house-Empty
Reach-Phase (then_step r (refused n c started)) = Reach-Phase r
Reach-Phase (then_step {h} r (accepted fd c free fresh)) =
    accepted-Phase h fd c (Reach-Phase r) free fresh
Reach-Phase (then_step {h} r (handled k c size buffer text left s out on t e)) =
    handled-Phase h k c size buffer left s out (Reach-Phase r) on e

-- In each state that the server of hw8a.c reaches like that, a handler whose `read` has given something
-- (or, while somebody waits, anything at all) and whose buffer has a zero byte makes no bad access: its
-- round comes to an end with the handler still in its loop, and the server is in one of the three
-- phases again.
pub handler-GoesOn :
    {h : House}
    → Reach h
    → (k c : ℕ) (size : ℤ) (buffer text : List ℕ) → c ∈ h.handlers
    → (leb_ℤ size (pos 0) && not (is_wait_clients h.server.state)) ≡ false
    → text_of buffer ≡ ok text
    → (s' : Server) × (left : List ℕ) × (out : List Effect) × (handle k c size buffer h.server
        ≡ ok (goes_on s' left out))
      × Phase (record h { server = s' })
handler-GoesOn {h} r k c size buffer text on stays t =
    let (s', left, out, e) =
      handler_round-goes_on h k c size buffer text (Reach-Phase r) on stays t in
    (s', left, out, e, handled-Phase h k c size buffer left s' out (Reach-Phase r) on e)
