-- ===== src/Elevator/Threads/Race.antt =====
-- A disturbed order of the sections: two passengers pass the test of `is_elevator_ready`, and the
-- elevator shuts its door before the second resets it.
use mathlib.Core.Logic.{dite}
use native.Mathlib.Decide.{dec_lt}
use cs361_projects.Prelude.{ℕ, ◌<◌, ◌≡◌, refl, Bool, List, [], ◌∷◌, ◌++◌, arith}
use cs361_projects.Prelude.Int.{pos, abs, ◌+ℤ◌, ◌-ℤ◌}
use cs361_projects.Elevator.Config.{elevators, passengers}
use cs361_projects.Elevator.Riding.{add_to_list, remove_from_list}
use cs361_projects.Elevator.Enforcer
use cs361_projects.Elevator.Enforcer.{
  start_elevator, start_passenger, elevator_move_direction_check, elevator_move_direction,
  elevator_open_door_check, elevator_open_door, elevator_close_door_check, elevator_close_door,
  passenger_enter_check, passenger_enter, passenger_exit_check, passenger_exit, begin_trip,
  end_trip_check, end_trip,
}
use cs361_projects.Elevator.Scheduler.{
  scheduler_init, may_run, plan, choose_target, closest_rider, closer, closest_waiting,
  scan_waiting, turn_at_ends, aim, announce, acknowledge, arrive, submit_request, submit_passenger,
  may_board, claim_to_board, board, may_leave, claim_to_leave, leave,
}
use cs361_projects.Elevator.System
use cs361_projects.Elevator.System.{Outcome, Lift, Trip, lift_step, lift_section, violates}
use cs361_projects.Elevator.System.Run.{Move, elevator, passenger, times}
use cs361_projects.Elevator.Threads
use cs361_projects.Elevator.Threads.{Threads, trip_step, trip_section, Reach}

record Run : Type 0 where
  last : Threads
  reach : Reach (λ _. pos 0) last

take_lift :
    (r : Run) (e : ℕ) → e < elevators → (o : Outcome Lift) → lift_step e r.last.system ≡ o → Run
take_lift r e lt (System.moved l) done = record {
  last = _;
  reach = Threads.later r.reach (Threads.lift e lt done);
}
take_lift r e lt o done = r

-- Passengers ask for floor 1.
take_trip :
    (r : Run) (p : ℕ)
    → p < passengers
    → (o : Outcome (Trip × Bool)) → trip_step p (pos 1) r.last ≡ o
    → Run
take_trip r p lt (System.moved t) done = record {
  last = _;
  reach = Threads.later r.reach (Threads.trip p (pos 1) {b = t.1} lt (omega arith) done);
}
take_trip r p lt o done = r

turn : Run → Move → Run
unfolding take_lift take_trip dec_lt lift_section trip_section scheduler_init start_elevator
    start_passenger may_run plan choose_target closest_rider closer closest_waiting scan_waiting
    turn_at_ends aim announce acknowledge arrive submit_request submit_passenger may_board
    claim_to_board board may_leave claim_to_leave leave add_to_list remove_from_list
    elevator_move_direction_check elevator_move_direction elevator_open_door_check
    elevator_open_door elevator_close_door_check elevator_close_door passenger_enter_check
    passenger_enter passenger_exit_check passenger_exit begin_trip end_trip_check end_trip abs ◌+ℤ◌
    ◌-ℤ◌
turn r (elevator e) =
    dite (dec_lt e elevators) (λ lt. take_lift r e lt (lift_step e r.last.system) refl) (λ _. r)
turn r (passenger p g) =
    dite (dec_lt p passengers) (λ lt. take_trip r p lt (trip_step p (pos 1) r.last) refl) (λ _. r)

run_from : Run → List Move → Run
unfolding turn
run_from r [] = r
run_from r (m ∷ ms) = run_from (turn r m) ms

-- The door is open; passengers 0 and 4 pass the test; passenger 0 boards; the elevator shuts the door;
-- passenger 4 resets the flag.
abbrev moves : List Move
moves =
    times 2 (passenger 0 1)
    ++ times 2 (passenger 4 1)
    ++ times 2 (passenger 8 1)
    ++ times 5 (elevator 0)
    ++ times 1 (passenger 0 1)
    ++ times 1 (passenger 4 1)
    ++ times 5 (passenger 0 1)
    ++ times 3 (elevator 0)
    ++ times 1 (passenger 4 1)

disturbed : Run
unfolding run_from
disturbed = run_from (record { last = _; reach = Threads.start }) moves

-- Then her call of `enter` ends the program.
disturbed-violates : trip_step 4 (pos 1) disturbed.last ≡ violates Enforcer.entered_closed_door
unfolding disturbed
disturbed-violates = refl
