-- ===== src/Elevator/Scheduler.antt =====
-- hw7-jli230-main/C/hw7.c: `struct Elevator_info`, `scheduler_init`, and the sections of
-- `passenger_request` and `elevator_ready`, cut where the thread may wait or calls back into the
-- enforcement system. Elevator.Threads puts the sections together.
-- A section is given the elements of `elevators` and `passengers` that it uses, and returns those that
-- it changes.
-- The fields `open`, `trips` and `ridelist`, which no code of the file uses, and the mutexes are
-- left out.
pub mod Init
pub mod Target
pub mod Direction
pub mod Phantom
use cs361_projects.Prelude.{
  ℕ, zero, suc, ◌+◌, ◌-◌, ◌%◌, Bool, true, false, ◌&&◌, ◌||◌, not, none, some, ◌==◌, ltb,
  if◌then◌else◌,
}
use cs361_projects.Prelude.Int.{ℤ, pos, negsuc, ◌+ℤ◌, ◌-ℤ◌, abs, ltb_ℤ, leb_ℤ, ◌==ℤ◌}
use cs361_projects.Prelude.Links.{Ptr, update}
use cs361_projects.Elevator.Config.{max_capacity, elevators, floors, passengers}
use cs361_projects.Elevator.Riding.{
  PassengerInfo, Store, Run, ok, null_deref, assert_failed, out_of_fuel, ◌>>=◌, add_to_list,
  remove_from_list,
}

pub record ElevatorInfo : Type 0 where
  pub elevator_floor : ℤ
  pub passenger_count : ℤ
  pub elevator_direction : ℤ
  pub wait_at : ℤ
  pub is_elevator_ready : Bool
  pub is_passenger_ready : Bool
  pub riding : Ptr
  pub start : ℕ
  pub waitlist : ℕ → ℤ
  pub wait_count : ℕ
  pub wait_num : ℕ
  pub next_wait : ℤ

pub record Scheduler : Type 0 where
  pub elevators : ℕ → ElevatorInfo
  pub passengers : Store

-- -1, the value of `wait_at` and `next_wait` that names no floor.
abbrev pub nowhere : ℤ
nowhere = negsuc 0

abbrev pub up : ℤ
up = pos 1

abbrev pub down : ℤ
down = negsuc 0

-- Static storage is zeroed.
abbrev pub zero_info : ElevatorInfo
zero_info = record {
  elevator_floor = pos 0;
  passenger_count = pos 0;
  elevator_direction = pos 0;
  wait_at = pos 0;
  is_elevator_ready = false;
  is_passenger_ready = false;
  riding = none;
  start = 0;
  waitlist = λ _. pos 0;
  wait_count = 0;
  wait_num = 0;
  next_wait = pos 0;
}

abbrev pub zero_passenger : PassengerInfo
zero_passenger = record {
  id = 0;
  from_floor = pos 0;
  to_floor = pos 0;
  elenumber = 0;
  status = 0;
  next = none;
}

abbrev pub zero_scheduler : Scheduler
zero_scheduler = record { elevators = λ _. zero_info; passengers = λ _. zero_passenger }

-- The body of the loop of `scheduler_init`.
unfoldable pub init_elevator : ElevatorInfo → ElevatorInfo
init_elevator info = record info {
  elevator_floor = pos 0;
  elevator_direction = up;
  passenger_count = pos 0;
  wait_at = nowhere;
  is_elevator_ready = false;
  wait_count = 0;
  wait_num = 0;
  start = 0;
  next_wait = nowhere;
  riding = none;
}

unfoldable pub init_from : ℕ → ℕ → Scheduler → Scheduler
unfolding init_elevator
init_from zero i s = s
init_from (suc n) i s =
    init_from n (i + 1)
      (record s { elevators = update s.elevators i (init_elevator (s.elevators i)) })

unfoldable pub scheduler_init : Scheduler → Scheduler
unfolding init_from
scheduler_init s = init_from elevators 0 s

-- `int elevator = passenger % 4;`
abbrev pub elevator_of : ℕ → ℕ
elevator_of p = p % 4

-- `passenger_request` up to its first wait: what it writes for the elevator and the passenger.
unfoldable pub submit_request : ℤ → ElevatorInfo → ElevatorInfo
submit_request from info = record info {
  waitlist = update info.waitlist info.wait_count from;
  wait_at = from;
  wait_count = info.wait_count + 1;
  start = info.start + 1;
}

unfoldable pub submit_passenger : ℕ → ℤ → ℤ → PassengerInfo → PassengerInfo
submit_passenger p from to info = record info {
  from_floor = from;
  to_floor = to;
  id = p;
  elenumber = elevator_of p;
  status = 0;
}

-- The `while` loop before boarding ends when this is true.
unfoldable pub may_board : ElevatorInfo → ℤ → Bool
may_board info from = not (
    not info.is_elevator_ready
    || (not (info.elevator_floor ==ℤ from) || leb_ℤ (pos max_capacity) info.passenger_count))

-- Between that loop and `enter`.
unfoldable pub claim_to_board : ℤ → ElevatorInfo → ElevatorInfo
claim_to_board from info = record info { wait_at = from; is_elevator_ready = false }

-- Between `enter` and the next wait. `k` is fuel for the list.
unfoldable pub board : ℕ → ℕ → ElevatorInfo → Store → Run (ElevatorInfo × Store)
board k p info s =
    let marked : Store = update s p (record (s p) { status = 1 }) in
    add_to_list k info.riding p marked >>= λ r. ok (
      record info {
        passenger_count = info.passenger_count +ℤ pos 1;
        riding = r.0;
        is_passenger_ready = true;
      },
      r.1,
    )

-- The `while` loop before the exit ends when this is true.
unfoldable pub may_leave : ElevatorInfo → ℤ → Bool
may_leave info to = not (not info.is_elevator_ready || not (info.elevator_floor ==ℤ to))

-- Between that loop and `exit`.
unfoldable pub claim_to_leave : ElevatorInfo → ElevatorInfo
claim_to_leave info = record info { is_elevator_ready = false }

-- Behind `exit`.
unfoldable pub leave : ℕ → ℕ → ElevatorInfo → Store → Run (ElevatorInfo × Store)
leave k p info s = remove_from_list k info.riding p s >>= λ r. ok (
  record info {
    passenger_count = info.passenger_count -ℤ pos 1;
    riding = r.0;
    is_passenger_ready = true;
  },
  r.1,
)

-- `while (elevators[elevator].start < 3) usleep(10);` ends when this is true.
unfoldable pub may_run : ElevatorInfo → Bool
may_run info = not (ltb info.start 3)

-- The direction at the two ends of the building.
unfoldable pub turn_at_ends : ℤ → ℤ → ℤ
turn_at_ends at direction =
    let at_top : ℤ = if at ==ℤ pos (floors - 1) then down else direction in
    if at ==ℤ pos 0 then up else at_top

-- `if (abs(floor-at_floor)<abs(closest-at_floor)) closest = floor;`
unfoldable pub closer : ℤ → ℤ → ℤ → ℤ
closer at floor closest = if ltb (abs (floor -ℤ at)) (abs (closest -ℤ at)) then floor else closest

-- The walk over the riders behind `p`.
unfoldable pub closest_rider : ℕ → ℕ → ℤ → ℤ → Store → Run ℤ
closest_rider zero p closest at s = out_of_fuel
closest_rider (suc k) p closest at s = elim (s p).next [
  | none ↦ ok closest
  | some q ↦ closest_rider k q (closer at (s q).to_floor closest) at s
]

-- One round of the scan over `passengers`. (The round also stores the floor in `wait_at`, which the
-- scan overwrites at its end.)
unfoldable pub scan_waiting : ℕ → ℤ → PassengerInfo → ℤ → ℤ
scan_waiting e at info closest =
    if (info.status == 0) && (info.elenumber == e)
    then (let first : ℤ = if closest ==ℤ nowhere then info.from_floor else closest in
        closer at info.from_floor first)
    else closest

-- The scan, with `n` rounds left at `i`.
unfoldable pub closest_waiting : ℕ → ℕ → ℕ → ℤ → ℤ → Store → ℤ
closest_waiting zero i e at closest s = closest
closest_waiting (suc n) i e at closest s =
    closest_waiting n (i + 1) e at (scan_waiting e at (s i) closest) s

-- The choice of `wait_at`.
unfoldable pub choose_target : ℕ → ℕ → ℤ → ElevatorInfo → Store → Run ElevatorInfo
choose_target k e at info s = elim info.riding [
  | some p ↦
      closest_rider k p (s p).to_floor at s >>= λ closest. ok (record info { wait_at = closest })
  | none ↦ ok (
      if not (info.next_wait ==ℤ nowhere)
      then record info { wait_at = info.next_wait; next_wait = nowhere }
      else record info { wait_at = closest_waiting passengers 0 e at nowhere s })
]

-- The direction towards the target.
unfoldable pub aim : ℤ → ElevatorInfo → ElevatorInfo
aim at info =
    let d : ℤ = info.elevator_direction in
    let d' : ℤ = if ltb_ℤ at info.wait_at && (d ==ℤ down) then up else d in
    record info {
      elevator_direction =
          if not (info.wait_at ==ℤ nowhere) && (ltb_ℤ info.wait_at at && (d' ==ℤ up))
          then down
          else d';
    }

-- `elevator_ready` from the end of its first loop to the test `wait_at == at_floor`.
unfoldable pub plan : ℕ → ℕ → ℤ → ElevatorInfo → Store → Run ElevatorInfo
plan k e at info s =
    let d : ℤ = turn_at_ends at info.elevator_direction in
    choose_target k e at (record info { elevator_direction = d }) s >>= λ chosen. ok (aim at chosen)

-- Between `door_open` and the wait for a passenger.
unfoldable pub announce : ElevatorInfo → ElevatorInfo
announce info = record info { wait_at = nowhere; is_elevator_ready = true }

-- Between that wait and `door_close`.
unfoldable pub acknowledge : ElevatorInfo → ElevatorInfo
acknowledge info = record info { is_passenger_ready = false }

-- Behind `move_direction`.
unfoldable pub arrive : ℤ → ElevatorInfo → ElevatorInfo
arrive at info = record info { elevator_floor = at +ℤ info.elevator_direction }
