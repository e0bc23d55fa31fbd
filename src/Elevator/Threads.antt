-- ===== src/Elevator/Threads.antt =====
-- hw7-jli230-main/C: the threads of the simulation, main.c's loops with hw7.c's handlers and main.c's
-- callbacks, interleaved.
-- A step is one section of one thread: the code from one place where the thread can wait or pause, take
-- `state_lock`, or be overtaken, to the next. A passenger's test of `is_elevator_ready` and her reset of
-- it are two sections: `elevator_ready` runs rounds without `elevator_lock` (hw7.c unlocks it in line
-- 406, and nothing locks it again), and its `pthread_cond_wait` then gives up a lock that a passenger may
-- hold. So no lock is in the model, and `Reach` has every order of the sections; `Undisturbed` says of
-- an order that nothing of the same elevator comes between a test and its reset, as `elevator_lock` is
-- there to ensure. `random() % FLOORS` gives any floor of the building, and `start_passenger` makes any
-- number of rounds.
pub mod Whole
pub mod Safety
pub mod Embedding
pub mod Pairs
mod Examples
mod Race
use cs361_projects.Prelude.{ℕ, ◌<◌, ◌≡◌, Bool, true, false, if◌then◌else◌}
use cs361_projects.Prelude.Int.{ℤ}
use cs361_projects.Prelude.Links.{update}
use cs361_projects.Elevator.Config.{elevators, passengers}
use cs361_projects.Elevator.Enforcer.{
  passenger_enter_check, passenger_enter, passenger_exit_check, passenger_exit, begin_trip,
  end_trip_check, end_trip,
}
use cs361_projects.Elevator.Scheduler.{
  elevator_of, submit_request, submit_passenger, may_board, claim_to_board, board, may_leave,
  claim_to_leave, leave,
}
use cs361_projects.Elevator.Scheduler.Direction.{InBuilding}
use cs361_projects.Elevator.System
use cs361_projects.Elevator.System.{
  System, Outcome, Lift, Trip, moved, blocked, violates, fails, checked, when, listed, fuel,
  passenger_self, has_room, lift_step, put_lift, put_trip, initial,
}

-- A section that is no test of `is_elevator_ready`.
abbrev pub keeps : Outcome Trip → Outcome (Trip × Bool)
keeps (moved t) = moved (t, false)
keeps blocked = blocked
keeps (violates v) = violates v
keeps fails = fails

-- `start_passenger`'s loop with `passenger_request`. `passed` says that the passenger has passed the test
-- of `is_elevator_ready`, and has not reset it yet. With no place left in `waitlist`, the request would be
-- written behind the array: the section fails.
unfoldable pub trip_section : ℕ → ℤ → (passed : Bool) → Trip → Outcome (Trip × Bool)
trip_section p goal passed t =
    let e : ℕ = elevator_of p in
    elim t.pc [
      | System.resting ↦
          keeps (moved (record t { rider = begin_trip goal t.rider; pc = System.calling }))
      | System.calling ↦
          if has_room t.info
          then moved (
            record t {
              info = submit_request t.rider.from_floor t.info;
              store =
                  update t.store p
                    (submit_passenger p t.rider.from_floor t.rider.to_floor (t.store p));
              pc = System.hailing;
            },
            false,
          )
          else fails
      | System.hailing ↦
          if passed
          then moved (
            record t { info = claim_to_board t.rider.from_floor t.info; pc = System.enter_first },
            false,
          )
          else when (may_board t.info t.rider.from_floor) (t, true)
      | System.enter_first ↦ keeps (
          checked (passenger_enter_check (passenger_self p) p t.car t.rider)
            (record t { pc = System.enter_second }))
      | System.enter_second ↦ keeps (
          checked (passenger_enter_check (passenger_self p) p t.car t.rider)
            (record t { pc = System.enter_update }))
      | System.enter_update ↦
          (let r = passenger_enter e t.car t.rider in
            keeps (moved (record t { car = r.0; rider = r.1; pc = System.boarding })))
      | System.boarding ↦ keeps (
          listed (board fuel p t.info t.store)
            (λ r. record t { info = r.0; store = r.1; pc = System.riding }))
      | System.riding ↦
          if passed
          then moved (record t { info = claim_to_leave t.info; pc = System.exit_first }, false)
          else when (may_leave t.info t.rider.to_floor) (t, true)
      | System.exit_first ↦ keeps (
          checked (passenger_exit_check (passenger_self p) p e t.car t.rider)
            (record t { pc = System.exit_second }))
      | System.exit_second ↦ keeps (
          checked (passenger_exit_check (passenger_self p) p e t.car t.rider)
            (record t { pc = System.exit_update }))
      | System.exit_update ↦
          (let r = passenger_exit t.car t.rider in
            keeps (moved (record t { car = r.0; rider = r.1; pc = System.leaving })))
      | System.leaving ↦ keeps (
          listed (leave fuel p t.info t.store)
            (λ r. record t { info = r.0; store = r.1; pc = System.returned }))
      | System.returned ↦ keeps (
          checked (end_trip_check t.rider)
            (record t { rider = end_trip t.rider; pc = System.resting }))
    ]

-- The arrays and the places of the threads, and who has passed a test.
pub record Threads : Type 0 where
  pub system : System
  pub passed : ℕ → Bool

-- What passenger `p` works on.
abbrev pub trip_of : ℕ → System → Trip
trip_of p s = record {
  info = s.infos (elevator_of p);
  store = s.store;
  car = s.cars (elevator_of p);
  rider = s.riders p;
  pc = s.trips p;
}

abbrev pub trip_step : ℕ → ℤ → Threads → Outcome (Trip × Bool)
trip_step p goal s = trip_section p goal (s.passed p) (trip_of p s.system)

abbrev pub after_lift : Threads → ℕ → Lift → Threads
after_lift s e l = record s { system = put_lift s.system e l }

abbrev pub after_trip : Threads → ℕ → Trip → Bool → Threads
after_trip s p t b = record { system = put_trip s.system p t; passed = update s.passed p b }

pub data Step (s : Threads) : Threads → Type 0 where
  lift :
      (e : ℕ) {l : Lift}
      → e < elevators
      → lift_step e s.system ≡ moved l
      → Step s (after_lift s e l)
  trip :
      (p : ℕ) (goal : ℤ) {t : Trip} {b : Bool}
      → p < passengers
      → InBuilding goal
      → trip_step p goal s ≡ moved (t, b)
      → Step s (after_trip s p t b)

-- Every order of the sections.
pub data Reach (origin : ℕ → ℤ) : Threads → Type 0 where
  start : Reach origin (record { system = initial origin; passed = λ _. false })
  later : {s t : Threads} → Reach origin s → Step s t → Reach origin t

-- Nothing of the same elevator comes between a passenger's test and her reset.
abbrev pub Quiet : {s t : Threads} → Step s t → Type 0
Quiet {s} (lift e lt done) = (q : ℕ) → elevator_of q ≡ e → s.passed q ≡ false
Quiet {s} (trip p goal lt g done) =
    (q : ℕ) → elevator_of q ≡ elevator_of p → s.passed q ≡ true → q ≡ p

abbrev pub Undisturbed : {origin : ℕ → ℤ} {s : Threads} → Reach origin s → Type 0
Undisturbed start = Unit
Undisturbed (later r step) = Undisturbed r × Quiet step
