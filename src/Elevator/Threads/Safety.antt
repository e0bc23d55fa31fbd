-- ===== src/Elevator/Threads/Safety.antt =====
-- What holds behind every undisturbed order of the sections.
use cs361_projects.Prelude.{ℕ, ◌<◌, ◌≡◌, Bool, true, false, none}
use cs361_projects.Prelude.Int.{ℤ, pos, ◌≤ℤ◌}
use cs361_projects.Elevator.Config.{max_capacity, elevators}
use cs361_projects.Elevator.Riding.{Store}
use cs361_projects.Elevator.Enforcer.{Car, Rider}
use cs361_projects.Elevator.Scheduler.{ElevatorInfo, elevator_of, may_board, may_leave}
use cs361_projects.Elevator.Scheduler.Direction.{InBuilding}
use cs361_projects.Elevator.System
use cs361_projects.Elevator.System.{
  Outcome, Trip, PassengerPc, has_room, whole_section, lift_step, returned,
}
use cs361_projects.Elevator.System.Invariant.{busy}
use cs361_projects.Elevator.System.Safety.{
  GoesOn, elevator-GoesOn, passenger-GoesOn, capacity_kept, turns_exclude, delivered,
}
use cs361_projects.Elevator.Threads.{Threads, keeps, trip_section, trip_step, Reach, Undisturbed}
use cs361_projects.Elevator.Threads.Whole.{Undisturbed-Clean}

keeps-GoesOn : (o : Outcome Trip) → GoesOn o → GoesOn (keeps o)
keeps-GoesOn (System.moved t) g = tt
keeps-GoesOn System.blocked g = tt
keeps-GoesOn (System.violates v) g = g
keeps-GoesOn System.fails g = g

when-GoesOn : (test : Bool) (t : Trip × Bool) → GoesOn (System.when test t)
when-GoesOn true t = tt
when-GoesOn false t = tt

module _ (p : ℕ) (goal : ℤ) (info : ElevatorInfo) (store : Store) (car : Car) (rider : Rider) where
  abbrev now : PassengerPc → Trip
  now pc = record { info = info; store = store; car = car; rider = rider; pc = pc }

  section-GoesOn :
      (pc : PassengerPc) (passed : Bool)
      → GoesOn (whole_section p goal (now pc))
      → has_room info ≡ true
      → GoesOn (trip_section p goal passed (now pc))
  unfolding trip_section whole_section
  section-GoesOn System.calling passed g room = rw room tt
  section-GoesOn System.hailing true g room = tt
  section-GoesOn System.hailing false g room =
      when-GoesOn (may_board info rider.from_floor) (now System.hailing, true)
  section-GoesOn System.riding true g room = tt
  section-GoesOn System.riding false g room =
      when-GoesOn (may_leave info rider.to_floor) (now System.riding, true)
  section-GoesOn System.resting passed g room =
      keeps-GoesOn (whole_section p goal (now System.resting)) g
  section-GoesOn System.enter_first passed g room =
      keeps-GoesOn (whole_section p goal (now System.enter_first)) g
  section-GoesOn System.enter_second passed g room =
      keeps-GoesOn (whole_section p goal (now System.enter_second)) g
  section-GoesOn System.enter_update passed g room =
      keeps-GoesOn (whole_section p goal (now System.enter_update)) g
  section-GoesOn System.boarding passed g room =
      keeps-GoesOn (whole_section p goal (now System.boarding)) g
  section-GoesOn System.exit_first passed g room =
      keeps-GoesOn (whole_section p goal (now System.exit_first)) g
  section-GoesOn System.exit_second passed g room =
      keeps-GoesOn (whole_section p goal (now System.exit_second)) g
  section-GoesOn System.exit_update passed g room =
      keeps-GoesOn (whole_section p goal (now System.exit_update)) g
  section-GoesOn System.leaving passed g room =
      keeps-GoesOn (whole_section p goal (now System.leaving)) g
  section-GoesOn System.returned passed g room =
      keeps-GoesOn (whole_section p goal (now System.returned)) g

-- Whatever floors of the building the passengers start from and ask for, and in every order of the
-- sections in which nothing of the same elevator comes between a passenger's test of `is_elevator_ready`
-- and her reset of it: the next section of no passenger ends in a VIOLATION (for her thread, her floor,
-- her state, the door or the capacity), and no list operation in it fails, while there is a place left in
-- the `waitlist` of her elevator.
pub trip_step-GoesOn :
    (origin : ℕ → ℤ) (s : Threads) (p : ℕ) (goal : ℤ)
    → ((q : ℕ) → InBuilding (origin q))
    → (r : Reach origin s) → Undisturbed r
    → InBuilding goal
    → has_room (s.system.infos (elevator_of p)) ≡ true
    → GoesOn (trip_step p goal s)
trip_step-GoesOn origin s p goal b r u g room =
    let sys = s.system in
    let e = elevator_of p in
    section-GoesOn p goal (sys.infos e) sys.store (sys.cars e) (sys.riders p) (sys.trips p)
      (s.passed p) (passenger-GoesOn origin sys p goal b (Undisturbed-Clean r u).whole g) room

-- Whatever floors of the building the passengers start from and ask for, and in every order of the
-- sections in which nothing of the same elevator comes between a passenger's test of `is_elevator_ready`
-- and her reset of it: the next section of no elevator ends in a VIOLATION, and its walk over the riders
-- does not fail.
pub lift_step-GoesOn :
    (origin : ℕ → ℤ) (s : Threads) (e : ℕ)
    → ((p : ℕ) → InBuilding (origin p))
    → (r : Reach origin s) → Undisturbed r
    → e < elevators
    → GoesOn (lift_step e s.system)
lift_step-GoesOn origin s e b r u lt =
    elevator-GoesOn origin s.system e b (Undisturbed-Clean r u).whole lt

-- Behind every order in which nothing of the same elevator comes between a passenger's test of
-- `is_elevator_ready` and her reset of it, with passengers who start in the building: an elevator is on a
-- floor of the building and has no more passengers than its capacity, and not fewer than none, by both
-- records.
pub never_overfull :
    (origin : ℕ → ℤ) (s : Threads) (e : ℕ)
    → ((p : ℕ) → InBuilding (origin p))
    → (r : Reach origin s) → Undisturbed r
    → e < elevators
    → InBuilding (s.system.cars e).floor
      × (pos 0 ≤ℤ (s.system.infos e).passenger_count)
      × ((s.system.infos e).passenger_count ≤ℤ pos max_capacity)
      × (pos 0 ≤ℤ (s.system.cars e).passengers)
      × ((s.system.cars e).passengers ≤ℤ pos max_capacity)
never_overfull origin s e b r u lt =
    capacity_kept origin s.system e b (Undisturbed-Clean r u).whole lt

-- Behind every order in which nothing of the same elevator comes between a passenger's test of
-- `is_elevator_ready` and her reset of it, with passengers who start in the building: two passengers of an
-- elevator who are both between that reset and the end of their boarding or leaving are the same
-- passenger, and the door is open all the while.
pub one_at_the_door :
    (origin : ℕ → ℤ) (s : Threads) (p q : ℕ)
    → ((p : ℕ) → InBuilding (origin p))
    → (r : Reach origin s) → Undisturbed r
    → elevator_of p ≡ elevator_of q
    → busy (s.system.trips p) ≡ true
    → busy (s.system.trips q) ≡ true
    → (p ≡ q) × ((s.system.cars (elevator_of p)).is_open ≡ true)
one_at_the_door origin s p q b r u same on on' =
    turns_exclude origin s.system p q b (Undisturbed-Clean r u).whole same on on'

-- Behind every order in which nothing of the same elevator comes between a passenger's test of
-- `is_elevator_ready` and her reset of it, with passengers who start in the building: when
-- `passenger_request` has returned, the passenger is on the floor that she asked for, and her link to a
-- further rider is NULL.
pub brought_there :
    (origin : ℕ → ℤ) (s : Threads) (p : ℕ)
    → ((p : ℕ) → InBuilding (origin p))
    → (r : Reach origin s) → Undisturbed r
    → s.system.trips p ≡ returned
    → ((s.system.riders p).at_floor ≡ (s.system.riders p).to_floor)
      × ((s.system.store p).next ≡ none)
brought_there origin s p b r u at = delivered origin s.system p b (Undisturbed-Clean r u).whole at
