-- ===== src/Elevator/System/Invariant/Defs.antt =====
-- The parts of the invariant.
use cs361_projects.Prelude.{
  ℕ, ◌+◌, ◌-◌, ◌≤◌, ◌<◌, ◌≡◌, Bool, true, false, ◌&&◌, Option, none, some, List, ◌==◌, length,
}
use cs361_projects.Prelude.Int.{ℤ, pos, ◌+ℤ◌}
use cs361_projects.Prelude.Links.{Ptr, has, Distinct, Chain}
use cs361_projects.Elevator.Config.{max_capacity}
use cs361_projects.Elevator.Riding.{Store, next_of}
use cs361_projects.Elevator.Enforcer.{Car, Rider, TripState}
use cs361_projects.Elevator.Scheduler.{ElevatorInfo, nowhere, elevator_of}
use cs361_projects.Elevator.Scheduler.Direction.{InBuilding, IsDirection}
use cs361_projects.Elevator.System.Steps

-- The passenger has taken the turn that the open door offers, and has not given it back.
abbrev pub busy : Steps.PassengerPc → Bool
busy Steps.enter_first = true
busy Steps.enter_second = true
busy Steps.enter_update = true
busy Steps.boarding = true
busy Steps.exit_first = true
busy Steps.exit_second = true
busy Steps.exit_update = true
busy Steps.leaving = true
busy _ = false

-- The passenger is on the list of riders.
abbrev pub aboard : Steps.PassengerPc → Bool
aboard Steps.riding = true
aboard Steps.exit_first = true
aboard Steps.exit_second = true
aboard Steps.exit_update = true
aboard Steps.leaving = true
aboard _ = false

abbrev pub door_open : Steps.ElevatorPc → Bool
door_open (Steps.announcing _) = true
door_open (Steps.holding _) = true
door_open (Steps.close_first _) = true
door_open (Steps.close_update _) = true
door_open _ = false

abbrev pub is_holding : Steps.ElevatorPc → Bool
is_holding (Steps.holding _) = true
is_holding _ = false

abbrev pub one : Bool → ℕ
one true = 1
one false = 0

abbrev pub is_actor : Option ℕ → ℕ → Bool
is_actor none p = false
is_actor (some q) p = q == p

abbrev pub is_some : Option ℕ → Bool
is_some none = false
is_some (some _) = true

-- The enforcement system counts a passenger before hw7.c does, in and out.
abbrev pub inside_after : Steps.PassengerPc → ℕ → ℕ
inside_after Steps.boarding n = n + 1
inside_after Steps.leaving n = n - 1
inside_after _ n = n

abbrev pub inside_count : (ℕ → Steps.PassengerPc) → Option ℕ → ℕ → ℕ
inside_count trips none n = n
inside_count trips (some p) n = inside_after (trips p) n

-- The list of riders of elevator `e`.
pub record Riders (e : ℕ) (riding : Ptr) (count : ℤ) (store : Store) (trips : ℕ → Steps.PassengerPc)
    (xs : List ℕ) : Type 0 where
  pub chain : Chain (next_of store) riding xs
  pub distinct : Distinct xs
  pub few : length xs ≤ max_capacity
  pub counted : count ≡ pos (length xs)
  pub members : (p : ℕ) → has p xs ≡ (aboard (trips p) && (elevator_of p == e))
  pub loose : (p : ℕ) → aboard (trips p) ≡ false → next_of store p ≡ none

-- The turn: the elevator offers it, a passenger has it, or a passenger has given it back, and each
-- only while the elevator waits with its door open.
pub record Turn (e : ℕ) (elevator_ready passenger_ready : Bool) (pc : Steps.ElevatorPc)
    (trips : ℕ → Steps.PassengerPc) (actor : Option ℕ) : Type 0 where
  pub acting : (p : ℕ) → (busy (trips p) && (elevator_of p == e)) ≡ is_actor actor p
  pub single : one elevator_ready + one passenger_ready + one (is_some actor) ≤ one (is_holding pc)

-- Where the cabin is, by both records, and where it will go.
abbrev pub Still : ℤ → ElevatorInfo → Car → Type 0
Still at info car =
    (at ≡ car.floor)
    × (info.elevator_floor ≡ car.floor)
    × InBuilding (car.floor +ℤ info.elevator_direction)

abbrev pub Place : ElevatorInfo → Car → Steps.ElevatorPc → Type 0
Place info car Steps.idle = info.elevator_floor ≡ car.floor
Place info car (Steps.open_first at) = Still at info car
Place info car (Steps.open_second at) = Still at info car
Place info car (Steps.open_update at) = Still at info car
Place info car (Steps.announcing at) = Still at info car
Place info car (Steps.holding at) = Still at info car
Place info car (Steps.close_first at) = Still at info car
Place info car (Steps.close_update at) = Still at info car
Place info car (Steps.moving at) = Still at info car
Place info car (Steps.move_first at d) = Still at info car × (d ≡ info.elevator_direction)
Place info car (Steps.move_second at d) = Still at info car × (d ≡ info.elevator_direction)
Place info car (Steps.move_update at d) = Still at info car × (d ≡ info.elevator_direction)
Place info car (Steps.landing at) = car.floor ≡ at +ℤ info.elevator_direction

pub record Cabin (info : ElevatorInfo) (car : Car) (pc : Steps.ElevatorPc) : Type 0 where
  pub door : car.is_open ≡ door_open pc
  pub here : InBuilding car.floor
  pub direction : IsDirection info.elevator_direction
  pub no_next : info.next_wait ≡ nowhere
  pub place : Place info car pc

-- What the enforcement system has on a passenger of elevator `e`, at `floor` with `n` riders.
abbrev pub Entering : ℤ → ℕ → Rider → Type 0
Entering floor n rider =
    (rider.state ≡ TripState.waiting) × (rider.from_floor ≡ floor) × (n < max_capacity)

abbrev pub Inside : ℕ → Rider → Type 0
Inside e rider = (rider.state ≡ TripState.entered) × (rider.in_elevator ≡ pos e)

abbrev pub Exiting : ℕ → ℤ → Rider → Type 0
Exiting e floor rider =
    (rider.state ≡ TripState.entered) × (rider.in_elevator ≡ pos e) × (rider.to_floor ≡ floor)

abbrev pub Person : ℕ → ℤ → ℕ → Rider → Steps.PassengerPc → Type 0
Person e floor n rider Steps.resting = Unit
Person e floor n rider Steps.calling = rider.state ≡ TripState.waiting
Person e floor n rider Steps.hailing = rider.state ≡ TripState.waiting
Person e floor n rider Steps.enter_first = Entering floor n rider
Person e floor n rider Steps.enter_second = Entering floor n rider
Person e floor n rider Steps.enter_update = Entering floor n rider
Person e floor n rider Steps.boarding = Inside e rider × (n < max_capacity)
Person e floor n rider Steps.riding = Inside e rider
Person e floor n rider Steps.exit_first = Exiting e floor rider
Person e floor n rider Steps.exit_second = Exiting e floor rider
Person e floor n rider Steps.exit_update = Exiting e floor rider
Person e floor n rider Steps.leaving = rider.at_floor ≡ rider.to_floor
Person e floor n rider Steps.returned = rider.at_floor ≡ rider.to_floor

abbrev pub People : ℕ → ℤ → ℕ → (ℕ → Rider) → (ℕ → Steps.PassengerPc) → Type 0
People e floor n riders trips = (p : ℕ) → elevator_of p ≡ e → Person e floor n (riders p) (trips p)

-- Every floor that is asked for is a floor of the building.
pub record Floors (store : Store) (riders : ℕ → Rider) : Type 0 where
  pub stored : (p : ℕ) → InBuilding (store p).from_floor × InBuilding (store p).to_floor
  pub asked : (p : ℕ) → InBuilding (riders p).from_floor × InBuilding (riders p).to_floor

-- The invariant of elevator `e`, with riders `xs` and a passenger who has the turn, or none.
pub record CarInv (e : ℕ) (info : ElevatorInfo) (car : Car) (pc : Steps.ElevatorPc) (store : Store)
    (riders : ℕ → Rider) (trips : ℕ → Steps.PassengerPc) (xs : List ℕ) (actor : Option ℕ)
    : Type 0 where
  pub on_list : Riders e info.riding info.passenger_count store trips xs
  pub turn : Turn e info.is_elevator_ready info.is_passenger_ready pc trips actor
  pub cabin : Cabin info car pc
  pub inside : car.passengers ≡ pos (inside_count trips actor (length xs))
  pub people : People e car.floor (length xs) riders trips
  pub floors : Floors store riders

-- The section waits, or goes on in a state with the property.
abbrev pub Fine : {A : Type 0} → (A → Type 0) → Steps.Outcome A → Type 0
Fine P (Steps.moved a) = P a
Fine P Steps.blocked = Unit
Fine P (Steps.violates v) = ⊥
Fine P Steps.fails = ⊥
