-- ===== src/Elevator/Examples.antt =====
-- The theorems on the elevators' parts at concrete inputs.
use cs361_projects.Prelude.{◌≡◌, refl, none, some, [], ◌∷◌, arith, ltb, ◌==◌, if◌then◌else◌}
use cs361_projects.Prelude.Int.{pos, negsuc}
use cs361_projects.Elevator.Config.{elevators}
use cs361_projects.Elevator.Riding
use cs361_projects.Elevator.Riding.{Store, assert_failed, add_to_list, remove_from_list}
use cs361_projects.Elevator.Riding.Add.{Added, add_to_list-Chain}
use cs361_projects.Elevator.Riding.RoundTrip.{remove-add}
use cs361_projects.Prelude.Links.{Ptr}
use cs361_projects.Elevator.Riding.Remove.{Removed, remove_from_list-Chain, remove_from_list-absent}
use cs361_projects.Elevator.Scheduler.{
  ElevatorInfo, zero_info, zero_scheduler, init_elevator, scheduler_init,
}
use cs361_projects.Elevator.Scheduler.Target.{waiting_floors, candidates}
use cs361_projects.Elevator.Scheduler.{up, plan, zero_passenger}
use cs361_projects.Elevator.Scheduler.Phantom.{plan-phantom}
use cs361_projects.Elevator.Scheduler.Init.{scheduler_init_lem}
use cs361_projects.Elevator.Scheduler.Direction.{Planned, plan_lem}

-- Passengers 7, 2 and 5 ride in this order, on their way to floors 9, 4 and 20.
abbrev riders_of_three : Store
riders_of_three a = record {
  id = a;
  from_floor = pos 0;
  to_floor = if a == 7 then pos 9 else if a == 2 then pos 4 else pos 20;
  elenumber = 0;
  status = 1;
  next = if a == 7 then some 2 else if a == 2 then some 5 else none;
}

add_to_list-Chain_example : Added 4 (some 7) 3 riders_of_three (7 ∷ 2 ∷ 5 ∷ [])
add_to_list-Chain_example =
    add_to_list-Chain 4 (some 7) 3 riders_of_three (7 ∷ 2 ∷ 5 ∷ []) (refl, (refl, (refl, refl)))
      (refl, (refl, (refl, tt))) refl refl (omega arith)

remove_from_list-Chain_example : Removed 4 (some 7) 2 riders_of_three (7 ∷ 2 ∷ 5 ∷ [])
remove_from_list-Chain_example =
    remove_from_list-Chain 4 (some 7) 2 riders_of_three (7 ∷ 2 ∷ 5 ∷ [])
      (refl, (refl, (refl, refl))) (refl, (refl, (refl, tt))) refl (omega arith)

remove_from_list-absent_example : remove_from_list 4 (some 7) 3 riders_of_three ≡ assert_failed
remove_from_list-absent_example =
    remove_from_list-absent 4 (some 7) 3 riders_of_three (7 ∷ 2 ∷ 5 ∷ [])
      (refl, (refl, (refl, refl))) refl (omega arith)

remove-add_example :
    (head' : Ptr) × (s' : Store) × (add_to_list 5 (some 7) 3 riders_of_three
      ≡ Riding.ok (head', s'))
    × (remove_from_list 5 head' 3 s' ≡ Riding.ok (some 7, riders_of_three))
remove-add_example =
    remove-add 5 (some 7) 3 riders_of_three (7 ∷ 2 ∷ 5 ∷ []) (refl, (refl, (refl, refl)))
      (refl, (refl, (refl, tt))) refl refl (omega arith)

-- At floor 6 with these riders the elevator makes for floor 4.
abbrev at_six : ElevatorInfo
at_six = record zero_info {
  elevator_floor = pos 6;
  elevator_direction = pos 1;
  riding = some 7;
  passenger_count = pos 3;
  next_wait = negsuc 0;
}

plan_lem_example : Planned 4 1 (pos 6) at_six riders_of_three (7 ∷ 2 ∷ 5 ∷ [])
unfolding waiting_floors candidates
plan_lem_example =
    plan_lem 4 1 (pos 6) at_six riders_of_three (7 ∷ 2 ∷ 5 ∷ []) (refl, (refl, (refl, refl)))
      (omega arith) refl (ground arith) (omega arith) tt (omega arith)

scheduler_init_lem_example :
    ((scheduler_init zero_scheduler).elevators 2 ≡ (
      if ltb 2 elevators
      then init_elevator (zero_scheduler.elevators 2)
      else zero_scheduler.elevators 2))
    × ((scheduler_init zero_scheduler).passengers ≡ zero_scheduler.passengers)
scheduler_init_lem_example = scheduler_init_lem zero_scheduler 2

-- Passengers 0 to 3 wait, 0 on floor 6 for elevator 0, and the others have not been asked yet.
abbrev first_requests : Store
first_requests a =
    if a == 0
    then record zero_passenger { from_floor = pos 6; to_floor = pos 9 }
    else if ltb a 4
    then record zero_passenger { id = a; elenumber = a }
    else zero_passenger

plan-phantom_example :
    plan 51 0 (pos 0) (init_elevator zero_info) first_requests
    ≡ Riding.ok (record (init_elevator zero_info) { wait_at = pos 0; elevator_direction = up })
unfolding init_elevator waiting_floors
plan-phantom_example =
    plan-phantom 51 4 (init_elevator zero_info) first_requests (omega arith) (omega arith) refl refl
      refl (ground arith)
