-- ===== src/Elevator/Scheduler/Init.antt =====
-- `scheduler_init`: lines 85-104 of hw7-jli230-main/C/hw7.c.
use cs361_projects.Prelude.{ℕ, ◌≡◌, refl, inl, inr, arith, ltb, if◌then◌else◌, Bool-cases}
use cs361_projects.Elevator.Config.{elevators}
use cs361_projects.Elevator.Scheduler.{Scheduler, init_elevator, scheduler_init}

-- The first four elevators are set up, no other is touched, and no passenger.
pub scheduler_init_lem :
    (s : Scheduler) (e : ℕ)
    → ((scheduler_init s).elevators e
        ≡ (if ltb e elevators then init_elevator (s.elevators e) else s.elevators e))
      × ((scheduler_init s).passengers ≡ s.passengers)
unfolding scheduler_init
scheduler_init_lem s e = (
  elim (Bool-cases (ltb e elevators)) [ inl one_of ↦ ground arith | inr beyond ↦ ground arith ],
  refl,
)
