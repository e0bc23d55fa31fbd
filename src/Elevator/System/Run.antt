-- ===== src/Elevator/System/Run.antt =====
-- Reachable states by evaluation: the threads take their sections in a given order.
use mathlib.Core.Logic.{dite}
use native.Mathlib.Decide.{dec_lt}
use cs361_projects.Prelude.{ℕ, suc, ◌<◌, ◌≡◌, refl, List, [], ◌∷◌, arith}
use cs361_projects.Prelude.Int.{ℤ, pos, abs, ◌+ℤ◌, ◌-ℤ◌}
use cs361_projects.Elevator.Config.{elevators, passengers, floors}
use cs361_projects.Elevator.Riding.{add_to_list, remove_from_list}
use cs361_projects.Elevator.Enforcer.{
  start_elevator, start_passenger, elevator_move_direction_check, elevator_move_direction,
  elevator_open_door_check, elevator_open_door, elevator_close_door_check, elevator_close_door,
  passenger_enter_check, passenger_enter, passenger_exit_check, passenger_exit, begin_trip,
  end_trip_check, end_trip,
}
use cs361_projects.Elevator.Scheduler.{
  scheduler_init, may_run, plan, choose_target, closest_rider, closer, closest_waiting,
  scan_waiting, turn_at_ends, aim, announce, acknowledge, arrive, submit_request, submit_passenger,
  may_board, claim_to_board, board, may_leave, claim_to_leave, leave,
}
use cs361_projects.Elevator.System
use cs361_projects.Elevator.System.{
  System, Outcome, Lift, Trip, lift_step, whole_step, lift_section, whole_section, initial,
  WholeReach,
}

-- Whose section comes next; a passenger's may ask for a floor.
pub data Move : Type 0 where
  elevator : ℕ → Move
  passenger : ℕ → ℕ → Move

pub record Run (origin : ℕ → ℤ) : Type 0 where
  pub last : System
  pub reach : WholeReach origin last

-- A section that cannot go on leaves the state as it is.
take_lift :
    {origin : ℕ → ℤ} (r : Run origin) (e : ℕ)
    → e < elevators
    → (o : Outcome Lift) → lift_step e r.last ≡ o
    → Run origin
take_lift r e lt (System.moved l) done = record {
  last = _;
  reach = System.later r.reach (System.lift e lt done);
}
take_lift r e lt o done = r

take_trip :
    {origin : ℕ → ℤ} (r : Run origin) (p g : ℕ)
    → p < passengers
    → g < floors
    → (o : Outcome Trip) → whole_step p (pos g) r.last ≡ o
    → Run origin
take_trip r p g lt b (System.moved t) done = record {
  last = _;
  reach = System.later r.reach (System.trip p (pos g) lt (omega arith) done);
}
take_trip r p g lt b o done = r

turn : {origin : ℕ → ℤ} → Run origin → Move → Run origin
unfolding take_lift take_trip dec_lt lift_section whole_section scheduler_init start_elevator
    start_passenger may_run plan choose_target closest_rider closer closest_waiting scan_waiting
    turn_at_ends aim announce acknowledge arrive submit_request submit_passenger may_board
    claim_to_board board may_leave claim_to_leave leave add_to_list remove_from_list
    elevator_move_direction_check elevator_move_direction elevator_open_door_check
    elevator_open_door elevator_close_door_check elevator_close_door passenger_enter_check
    passenger_enter passenger_exit_check passenger_exit begin_trip end_trip_check end_trip abs ◌+ℤ◌
    ◌-ℤ◌
turn r (elevator e) =
    dite (dec_lt e elevators) (λ lt. take_lift r e lt (lift_step e r.last) refl) (λ _. r)
turn r (passenger p g) =
    dite (dec_lt p passengers)
      (λ lt.
        dite (dec_lt g floors) (λ b. take_trip r p g lt b (whole_step p (pos g) r.last) refl)
          (λ _. r))
      (λ _. r)

run_from : {origin : ℕ → ℤ} → Run origin → List Move → Run origin
unfolding turn
run_from r [] = r
run_from r (m ∷ ms) = run_from (turn r m) ms

unfoldable pub run : (origin : ℕ → ℤ) → List Move → Run origin
unfolding run_from
run origin ms = run_from (record { last = initial origin; reach = System.start }) ms

-- The same section `n` times.
abbrev pub times : ℕ → Move → List Move
times ℕ.zero m = []
times (suc n) m = m ∷ times n m
