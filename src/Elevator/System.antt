-- ===== src/Elevator/System.antt =====
-- hw7-jli230-main/C: the state of the simulation, the sections of its threads, and the steps in which a
-- passenger's test of `is_elevator_ready` and her reset of it are taken as one. Elevator/Threads has
-- the threads with the two apart, in any order.
mod Steps
pub mod Invariant
pub mod Safety
pub mod Progress
pub mod Run
unfoldable pub use Steps.*
use cs361_projects.Prelude.{ℕ, zero, suc, ◌+◌, ◌<◌, ◌≡◌, Bool, true, false, none}
use cs361_projects.Prelude.Int.{ℤ, pos, negsuc}
use cs361_projects.Prelude.Links.{update}
use cs361_projects.Elevator.Config.{elevators, passengers}
use cs361_projects.Elevator.Riding.{PassengerInfo, Store}
use cs361_projects.Elevator.Enforcer.{Car, Rider, TripState, start_elevator, start_passenger}
use cs361_projects.Elevator.Scheduler.{
  ElevatorInfo, Scheduler, elevator_of, zero_scheduler, scheduler_init,
}
use cs361_projects.Elevator.Scheduler.Direction.{InBuilding}

-- The arrays of hw7.c, those of main.c, and where each thread stands.
pub record System : Type 0 where
  pub infos : ℕ → ElevatorInfo
  pub store : Store
  pub cars : ℕ → Car
  pub riders : ℕ → Rider
  pub lifts : ℕ → ElevatorPc
  pub trips : ℕ → PassengerPc

abbrev pub lift_step : ℕ → System → Outcome Lift
lift_step e s = lift_section e s.store (record { info = s.infos e; car = s.cars e; pc = s.lifts e })

abbrev pub whole_step : ℕ → ℤ → System → Outcome Trip
whole_step p goal s = whole_section p goal (record {
  info = s.infos (elevator_of p);
  store = s.store;
  car = s.cars (elevator_of p);
  rider = s.riders p;
  pc = s.trips p;
})

abbrev pub put_lift : System → ℕ → Lift → System
put_lift s e l = record s {
  infos = update s.infos e l.info;
  cars = update s.cars e l.car;
  lifts = update s.lifts e l.pc;
}

abbrev pub put_trip : System → ℕ → Trip → System
put_trip s p t = record {
  infos = update s.infos (elevator_of p) t.info;
  store = t.store;
  cars = update s.cars (elevator_of p) t.car;
  riders = update s.riders p t.rider;
  lifts = s.lifts;
  trips = update s.trips p t.pc;
}

pub data WholeStep (s : System) : System → Type 0 where
  lift : (e : ℕ) {l : Lift} → e < elevators → lift_step e s ≡ moved l → WholeStep s (put_lift s e l)
  trip :
      (p : ℕ) (goal : ℤ) {t : Trip}
      → p < passengers
      → InBuilding goal
      → whole_step p goal s ≡ moved t
      → WholeStep s (put_trip s p t)

abbrev zero_rider : Rider
zero_rider = record {
  id = 0;
  from_floor = pos 0;
  to_floor = pos 0;
  in_elevator = pos 0;
  at_floor = pos 0;
  state = TripState.waiting;
}

-- `main` behind `scheduler_init`, with every thread in front of its loop: `origin` gives the floors
-- that the passengers start from.
abbrev pub initial : (ℕ → ℤ) → System
initial origin = record {
  infos = (scheduler_init zero_scheduler).elevators;
  store = (scheduler_init zero_scheduler).passengers;
  cars = λ _.
      start_elevator (record { floor = pos 0; is_open = false; passengers = pos 0; trips = 0 });
  riders = λ p. start_passenger p (origin p) zero_rider;
  lifts = λ _. idle;
  trips = λ _. resting;
}

pub data WholeReach (origin : ℕ → ℤ) : System → Type 0 where
  start : WholeReach origin (initial origin)
  later : {s t : System} → WholeReach origin s → WholeStep s t → WholeReach origin t
