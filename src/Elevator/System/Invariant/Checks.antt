-- ===== src/Elevator/System/Invariant/Checks.antt =====
-- The checks of the enforcement system pass where the invariant holds.
use cs361_projects.Prelude.{ℕ, ◌≤◌, ◌≡◌, true, false, arith}
use cs361_projects.Prelude.Int.{pos}
use cs361_projects.Elevator.Config.{max_capacity}
use cs361_projects.Elevator.Enforcer.{
  Car, Rider, ok, elevator_check, elevator_move_direction_check, elevator_open_door_check,
  elevator_close_door_check, passenger_enter_check, passenger_exit_check, end_trip_check,
}
use cs361_projects.Elevator.Scheduler.Direction.{InBuilding}
use cs361_projects.Elevator.System.Steps.{elevator_self, passenger_self}
use cs361_projects.Elevator.System.Invariant.Defs.{Entering, Exiting}

pub elevator_check-ok :
    (e n : ℕ) (car : Car)
    → car.passengers ≡ pos n
    → n ≤ max_capacity
    → elevator_check (elevator_self e) e car ≡ ok tt
unfolding elevator_check
elevator_check-ok e n car inside few = ground arith

module _ (e n : ℕ) (car : Car) (inside : car.passengers ≡ pos n) (few : n ≤ max_capacity) where
  pub elevator_open_door_check-ok :
      car.is_open ≡ false → elevator_open_door_check (elevator_self e) e car ≡ ok tt
  unfolding elevator_open_door_check
  elevator_open_door_check-ok shut = ground arith

  pub elevator_close_door_check-ok :
      car.is_open ≡ true → elevator_close_door_check (elevator_self e) e car ≡ ok tt
  unfolding elevator_close_door_check
  elevator_close_door_check-ok opened = ground arith

  pub elevator_move_direction_check-ok :
      car.is_open ≡ false
      → InBuilding car.floor
      → elevator_move_direction_check (elevator_self e) e car ≡ ok tt
  unfolding elevator_move_direction_check
  elevator_move_direction_check-ok shut b = ground arith

pub passenger_enter_check-ok :
    (p n : ℕ) (car : Car) (rider : Rider)
    → car.passengers ≡ pos n
    → car.is_open ≡ true
    → Entering car.floor n rider
    → passenger_enter_check (passenger_self p) p car rider ≡ ok tt
unfolding passenger_enter_check
passenger_enter_check-ok p n car rider inside opened h = ground arith

pub passenger_exit_check-ok :
    (p e : ℕ) (car : Car) (rider : Rider)
    → car.is_open ≡ true
    → Exiting e car.floor rider
    → passenger_exit_check (passenger_self p) p e car rider ≡ ok tt
unfolding passenger_exit_check
passenger_exit_check-ok p e car rider opened h = ground arith

pub end_trip_check-ok :
    (rider : Rider) → rider.at_floor ≡ rider.to_floor → end_trip_check rider ≡ ok tt
unfolding end_trip_check
end_trip_check-ok rider h = ground arith
