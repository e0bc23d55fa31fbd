-- ===== src/Elevator/Threads/Examples.antt =====
-- The theorems on the threads of the simulation, and on what the display shows of them, at concrete runs:
-- three passengers of elevator 0 start on the ground floor, and the first of them rides to floor 1.
use cs361_projects.Prelude.{
  ℕ, ◌≡◌, refl, true, none, List, [], ◌∷◌, ◌++◌, arith, length, ◌==◌, if◌then◌else◌,
}
use cs361_projects.Prelude.Text.{Chars, codes}
use cs361_projects.Prelude.Int.{ℤ, pos, negsuc, ◌-ℤ◌, ◌≤ℤ◌}
use cs361_projects.Elevator.Config.{max_capacity, elevators, passengers}
use cs361_projects.Elevator.Enforcer.{Car, Rider, TripState}
use cs361_projects.Elevator.Scheduler.{may_run}
use cs361_projects.Elevator.Scheduler.Direction.{InBuilding}
use cs361_projects.Elevator.Display.{row, decimal, queue, inside, cells}
use cs361_projects.Elevator.Display.Aligned.{row_lined_up}
use cs361_projects.Elevator.System.{lift_step, returned}
use cs361_projects.Elevator.System.Run.{Run, Move, elevator, passenger, run, times}
use cs361_projects.Elevator.System.Safety.{GoesOn}
use cs361_projects.Elevator.Threads.{Threads, trip_step}
use cs361_projects.Elevator.Threads.Embedding.{threads, nobody_passed, Orderly, WholeReach-Orderly}
use cs361_projects.Elevator.Threads.Safety.{
  trip_step-GoesOn, lift_step-GoesOn, never_overfull, one_at_the_door, brought_there,
}
use cs361_projects.Elevator.Threads.Pairs.{Brought, rider-Brought}

abbrev ground_floor : ℕ → ℤ
ground_floor _ = pos 0

abbrev requests : List Move
requests = times 2 (passenger 0 1) ++ times 2 (passenger 4 2) ++ times 2 (passenger 8 3)

-- Passenger 0 is about to put herself on the list of riders.
abbrev boarding_run : Run ground_floor
boarding_run = run ground_floor (requests ++ times 5 (elevator 0) ++ times 4 (passenger 0 1))

-- She has left on floor 1.
abbrev full_run : Run ground_floor
full_run = run ground_floor (
    requests
    ++ times 5 (elevator 0)
    ++ times 5 (passenger 0 1)
    ++ times 13 (elevator 0)
    ++ times 5 (passenger 0 1))

full_run-returned : full_run.last.trips 0 ≡ returned
unfolding run
full_run-returned = refl

-- Passenger 0 rides, and the elevator is between two rounds.
abbrev riding_run : Run ground_floor
riding_run =
    run ground_floor
      (requests ++ times 5 (elevator 0) ++ times 5 (passenger 0 1) ++ times 8 (elevator 0))

-- The same runs, in sections of the threads.
abbrev boarding_threads : Threads
boarding_threads = threads boarding_run.last nobody_passed

abbrev full_threads : Threads
full_threads = threads full_run.last nobody_passed

abbrev riding_threads : Threads
riding_threads = threads riding_run.last nobody_passed

boarding-Orderly : Orderly ground_floor boarding_threads
boarding-Orderly = WholeReach-Orderly boarding_run.reach

full-Orderly : Orderly ground_floor full_threads
full-Orderly = WholeReach-Orderly full_run.reach

riding-Orderly : Orderly ground_floor riding_threads
riding-Orderly = WholeReach-Orderly riding_run.reach

lift_step-GoesOn_example : GoesOn (lift_step 0 full_threads.system)
lift_step-GoesOn_example =
    lift_step-GoesOn ground_floor full_threads 0 (λ p. omega arith) full-Orderly.0 full-Orderly.1
      (omega arith)

trip_step-GoesOn_example : GoesOn (trip_step 0 (pos 5) boarding_threads)
unfolding run
trip_step-GoesOn_example =
    trip_step-GoesOn ground_floor boarding_threads 0 (pos 5) (λ q. omega arith) boarding-Orderly.0
      boarding-Orderly.1 (omega arith) refl

never_overfull_example :
    InBuilding (boarding_run.last.cars 0).floor
    × (pos 0 ≤ℤ (boarding_run.last.infos 0).passenger_count)
    × ((boarding_run.last.infos 0).passenger_count ≤ℤ pos max_capacity)
    × (pos 0 ≤ℤ (boarding_run.last.cars 0).passengers)
    × ((boarding_run.last.cars 0).passengers ≤ℤ pos max_capacity)
never_overfull_example =
    never_overfull ground_floor boarding_threads 0 (λ p. omega arith) boarding-Orderly.0
      boarding-Orderly.1 (omega arith)

one_at_the_door_example : (◌≡◌ {A = ℕ} 0 0) × ((boarding_run.last.cars 0).is_open ≡ true)
unfolding run
one_at_the_door_example =
    one_at_the_door ground_floor boarding_threads 0 0 (λ p. omega arith) boarding-Orderly.0
      boarding-Orderly.1 refl refl refl

brought_there_example :
    ((full_run.last.riders 0).at_floor ≡ (full_run.last.riders 0).to_floor)
    × ((full_run.last.store 0).next ≡ none)
unfolding run
brought_there_example =
    brought_there ground_floor full_threads 0 (λ p. omega arith) full-Orderly.0 full-Orderly.1 refl

rider-Brought_example : (t : Threads) × Brought 0 riding_threads t
unfolding run may_run
rider-Brought_example =
    rider-Brought ground_floor riding_threads 0 0 (λ p. omega arith) riding-Orderly.0
      riding-Orderly.1 (omega arith) refl refl refl refl

row_lined_up_example :
    (left : Chars) × (row (pos 1) riding_run.last.cars riding_run.last.riders
      ≡ decimal (pos 1)
        ++ 9 ∷ left
        ++ b'X' ∷ b' ' ∷ queue passengers 0 (pos 1) riding_run.last.riders
        ++ 10 ∷ [])
    × (length left ≡ 76)
row_lined_up_example =
    row_lined_up ground_floor riding_threads (pos 1) (λ p. omega arith) riding-Orderly.0
      riding-Orderly.1

-- Two are inside, and two wait on the floor.
abbrev crowded : Car
crowded = record { floor = pos 4; is_open = true; passengers = pos 2; trips = 0 }

abbrev waits_on_four : Rider
waits_on_four = record {
  id = 1;
  from_floor = pos 4;
  to_floor = pos 9;
  in_elevator = negsuc 0;
  at_floor = pos 4;
  state = TripState.waiting;
}

-- Elevator 0 stands here with its door open, 1 is above, the others are below, and passenger 3 rides
-- in elevator 0 to floor 9.
abbrev one_inside : ℕ → Rider
one_inside p =
    if p == 3
    then record {
      id = 3;
      from_floor = pos 0;
      to_floor = pos 9;
      in_elevator = pos 0;
      at_floor = pos 0;
      state = TripState.entered;
    }
    else record waits_on_four { from_floor = pos 20; to_floor = pos 2 }

abbrev some_cars : ℕ → Car
some_cars e =
    if e == 0 then crowded else record crowded { floor = if e == 1 then pos 11 else pos 0 }

inside_test : inside 5 0 (pos 4) some_cars one_inside (pos 60) ≡ (codes "->09 ", pos 55)
unfolding inside ◌-ℤ◌
inside_test = refl

cells_test : cells elevators 0 (pos 4) some_cars ≡ codes " O  |       "
unfolding cells
cells_test = refl

queue_test : queue 2 0 (pos 20) one_inside ≡ codes "->2 ->2 "
unfolding queue
queue_test = refl
