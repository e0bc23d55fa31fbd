-- ===== src/Elevator/Enforcer.antt =====
-- hw7-jli230-main/C/main.c: the enforcement system, which keeps its own record of cars and riders
-- and ends the program with a VIOLATION at the first call that breaks a rule.
-- Each function here is what one thread does between taking `state_lock` and giving it back. A
-- callback is two or three of them in a row, with pauses between; Elevator.Threads runs them one at
-- a time. A function is given the elements of the arrays that the C function indexes, and returns
-- those that it changes. Log output and the pauses are left out.
use cs361_projects.Prelude.{ℕ, ◌+◌, Bool, true, false, ◌||◌, not, ◌==◌}
use cs361_projects.Prelude.Int.{ℤ, pos, negsuc, ◌+ℤ◌, ◌-ℤ◌, ltb_ℤ, leb_ℤ, ◌==ℤ◌}
use cs361_projects.Elevator.Config.{max_capacity, floors}

-- The thread-local `type` and `id`.
pub data ThreadType : Type 0 where
  unset passenger elevator : ThreadType

pub record Self : Type 0 where
  pub type : ThreadType
  pub id : ℕ

-- `struct Elevator`
pub record Car : Type 0 where
  pub floor : ℤ
  pub is_open : Bool
  pub passengers : ℤ
  pub trips : ℕ

pub data TripState : Type 0 where
  waiting entered exited : TripState

-- `struct Passenger`
pub record Rider : Type 0 where
  pub id : ℕ
  pub from_floor : ℤ
  pub to_floor : ℤ
  pub in_elevator : ℤ
  pub at_floor : ℤ
  pub state : TripState

-- One constructor for each VIOLATION message.
pub data Violation : Type 0 where
  wrong_elevator_thread over_capacity : Violation
  moved_while_open outside_building already_open already_closed : Violation
  entered_on_wrong_thread entered_wrong_floor entered_closed_door boarded_full : Violation
  was_not_waiting exited_on_wrong_thread exited_wrong_elevator exited_wrong_floor : Violation
  exited_closed_door was_not_inside ended_on_wrong_floor : Violation

pub data Checked {ℓ} (A : Type ℓ) : Type ℓ where
  ok : A → Checked A
  violation : Violation → Checked A

infixl 5 ◌>>=◌ ◌>>◌
abbrev pub ◌>>=◌ {ℓ κ} : {A : Type ℓ} {B : Type κ} → Checked A → (A → Checked B) → Checked B
ok a >>= f = f a
violation v >>= f = violation v

abbrev pub ◌>>◌ {ℓ} : {B : Type ℓ} → Checked (Unit {0}) → Checked B → Checked B
m >> k = m >>= λ _. k

-- `if (bad) { log(0, "VIOLATION …"); exit(1); }`
abbrev pub refuse : Bool → Violation → Checked (Unit {0})
refuse true v = violation v
refuse false v = ok tt

-- `type == ELEVATOR && id == elevator`
abbrev pub is_elevator : Self → ℕ → Bool
is_elevator self e = elim self.type [ elevator ↦ self.id == e | _ ↦ false ]

abbrev pub is_passenger : Self → ℕ → Bool
is_passenger self p = elim self.type [ passenger ↦ self.id == p | _ ↦ false ]

abbrev pub is_waiting : TripState → Bool
is_waiting waiting = true
is_waiting _ = false

abbrev pub is_entered : TripState → Bool
is_entered entered = true
is_entered _ = false

unfoldable pub elevator_check : Self → ℕ → Car → Checked (Unit {0})
elevator_check self e car = do
  refuse (not (is_elevator self e)) wrong_elevator_thread
  refuse (ltb_ℤ (pos max_capacity) car.passengers || ltb_ℤ car.passengers (pos 0)) over_capacity

unfoldable pub elevator_move_direction_check : Self → ℕ → Car → Checked (Unit {0})
unfolding elevator_check
elevator_move_direction_check self e car = do
  elevator_check self e car
  refuse car.is_open moved_while_open
  refuse (leb_ℤ (pos floors) car.floor || ltb_ℤ car.floor (pos 0)) outside_building

-- `elevators[elevator].floor += direction`
unfoldable pub elevator_move_direction : ℤ → Car → Car
elevator_move_direction direction car = record car { floor = car.floor +ℤ direction }

unfoldable pub elevator_open_door_check : Self → ℕ → Car → Checked (Unit {0})
unfolding elevator_check
elevator_open_door_check self e car = do elevator_check self e car; refuse car.is_open already_open

unfoldable pub elevator_open_door : Car → Car
elevator_open_door car = record car { is_open = true }

unfoldable pub elevator_close_door_check : Self → ℕ → Car → Checked (Unit {0})
unfolding elevator_check
elevator_close_door_check self e car = do
  elevator_check self e car
  refuse (not car.is_open) already_closed

unfoldable pub elevator_close_door : Car → Car
elevator_close_door car = record car { is_open = false }

unfoldable pub passenger_enter_check : Self → ℕ → Car → Rider → Checked (Unit {0})
passenger_enter_check self p car rider = do
  refuse (not (is_passenger self p)) entered_on_wrong_thread
  refuse (not (rider.from_floor ==ℤ car.floor)) entered_wrong_floor
  refuse (not car.is_open) entered_closed_door
  refuse (car.passengers ==ℤ pos max_capacity) boarded_full
  refuse (not (is_waiting rider.state)) was_not_waiting

unfoldable pub passenger_enter : ℕ → Car → Rider → Car × Rider
passenger_enter e car rider = (
  record car { passengers = car.passengers +ℤ pos 1 },
  record rider { in_elevator = pos e; state = entered },
)

unfoldable pub passenger_exit_check : Self → ℕ → ℕ → Car → Rider → Checked (Unit {0})
passenger_exit_check self p e car rider = do
  refuse (not (is_passenger self p)) exited_on_wrong_thread
  refuse (not (rider.in_elevator ==ℤ pos e)) exited_wrong_elevator
  refuse (not (rider.to_floor ==ℤ car.floor)) exited_wrong_floor
  refuse (not car.is_open) exited_closed_door
  refuse (not (is_entered rider.state)) was_not_inside

unfoldable pub passenger_exit : Car → Rider → Car × Rider
passenger_exit car rider = (
  record car { passengers = car.passengers -ℤ pos 1; trips = car.trips + 1 },
  record rider { in_elevator = negsuc 0; at_floor = car.floor; state = exited },
)

-- `start_elevator`, before its loop.
unfoldable pub start_elevator : Car → Car
start_elevator car = record car { passengers = pos 0; trips = 0; floor = pos 0 }

-- `start_passenger`, before its loop; `origin` is what `random() % FLOORS` gives.
unfoldable pub start_passenger : ℕ → ℤ → Rider → Rider
start_passenger p origin rider = record rider {
  from_floor = origin;
  at_floor = origin;
  in_elevator = negsuc 0;
  id = p;
}

-- The start of a round of its loop; `goal` is what `random() % FLOORS` gives.
unfoldable pub begin_trip : ℤ → Rider → Rider
begin_trip goal rider = record rider { to_floor = goal; state = waiting }

-- The end of the round.
unfoldable pub end_trip_check : Rider → Checked (Unit {0})
end_trip_check rider = refuse (not (rider.at_floor ==ℤ rider.to_floor)) ended_on_wrong_floor

unfoldable pub end_trip : Rider → Rider
end_trip rider = record rider { from_floor = rider.to_floor }
