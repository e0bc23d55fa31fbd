-- ===== src/Chat/Main/Phases.antt =====
-- What the server of hw8-jli230-main/C/hw8a.c keeps while clients come and talk: nobody, somebody who
-- waits, or two who talk.
pub mod Talk
pub mod Join
mod Examples
pub mod Serve
use cs361_projects.Prelude.{
  ℕ, suc, ◌+◌, ◌<◌, ◌≤◌, ◌≡◌, refl, sym, ap, subst, ◌∙◌, ◌≢◌, ◌⊎◌, inl, inr, Bool, true, false,
  ◌&&◌, none, some, List, [], ◌∷◌, ◌++◌, arith, ◌==◌, ==_iff, Bool-cases, if◌then◌else◌, not,
  length,
}
use cs361_projects.Prelude.Int.{ℤ, pos, negsuc, ◌+ℤ◌, ◌==ℤ◌, leb_ℤ}
use cs361_projects.Prelude.Links.{◌∈◌, has, update, update_self}
use cs361_projects.Chat
use cs361_projects.Chat.{
  Client, Server, State, wait_clients, wait_asker, wait_answerer, Role, active, Effect, Run, ok,
  bad_access, out_of_fuel, After, goes_on, ends, insert, enlist, relay, handle, text_of, load,
  is_wait_clients, hang_up, clear_text,
}
use cs361_projects.Chat.Joining.{first_client, alone, first_insert}
use cs361_projects.Chat.Leaving.{Talking}
use cs361_projects.Chat.Main.Rounds.{OnlyState, handle-OnlyState}
use cs361_projects.Chat.Main.{
  House, Step, Reach, refused, accepted, handled, opened, then_step, accept_round, IsFresh,
  max_clients, empty_house,
}

-- Nobody is there.
pub record Empty (h : House) : Type 0 where
  pub none_counted : h.server.actives ≡ pos 0
  pub no_head : h.server.head ≡ none
  pub no_answerer : h.server.answererfd ≡ 0
  pub no_handlers : h.handlers ≡ []
  pub no_memory : (a : ℕ) → h.server.heap a ≡ none

-- The asker at `a` waits for somebody to talk to.
pub record Waiting (h : House) (a : ℕ) (c : Client) : Type 0 where
  pub waits : h.server.state ≡ wait_clients
  pub one_counted : h.server.actives ≡ pos 1
  pub head_at : h.server.head ≡ some a
  pub asker_at : h.server.asker ≡ some a
  pub at_a : h.server.heap a ≡ some c
  pub last : c.next ≡ none
  pub asker_fd : c.fd ≡ h.server.askerfd
  pub real_fd : 2 < c.fd
  pub no_answerer : h.server.answererfd ≡ 0
  pub one_handler : h.handlers ≡ a ∷ []

-- Whoever's turn it is, it is somebody's.
abbrev pub InTalk : State → Type 0
InTalk st = (st ≡ wait_asker) ⊎ (st ≡ wait_answerer)

-- An asker and an answerer talk.
pub record Paired (h : House) (a b : ℕ) (asker answerer : Client) : Type 0 where
  pub turn : InTalk h.server.state
  pub talking : Talking h.server a b asker answerer
  pub two_handlers : h.handlers ≡ b ∷ a ∷ []

abbrev pub Phase : House → Type 0
Phase h =
    Empty h
    ⊎ (((a : ℕ) × (c : Client) × Waiting h a c)
        ⊎ ((a b : ℕ) × (asker answerer : Client) × Paired h a b asker answerer))
