-- ===== src/Elevator/System/Steps.antt =====
-- The sections of an elevator's thread and of a passenger's thread, in order.
use cs361_projects.Prelude.{ltb, ℕ, ◌+◌, Bool, true, false, if◌then◌else◌}
use cs361_projects.Prelude.Int.{ℤ, ◌==ℤ◌}
use cs361_projects.Prelude.Links.{update}
use cs361_projects.Elevator.Config.{passengers}
use cs361_projects.Elevator.Riding
use cs361_projects.Elevator.Riding.{Store}
use cs361_projects.Elevator.Enforcer
use cs361_projects.Elevator.Enforcer.{
  Self, ThreadType, Car, Rider, Checked, Violation, elevator_move_direction_check,
  elevator_move_direction, elevator_open_door_check, elevator_open_door, elevator_close_door_check,
  elevator_close_door, passenger_enter_check, passenger_enter, passenger_exit_check, passenger_exit,
  begin_trip, end_trip_check, end_trip,
}
use cs361_projects.Elevator.Scheduler.{
  ElevatorInfo, elevator_of, submit_request, submit_passenger, may_board, claim_to_board, board,
  may_leave, claim_to_leave, leave, may_run, plan, announce, acknowledge, arrive,
}

-- Where the thread of an elevator stands: the section that comes next, with the argument `at_floor`
-- of `elevator_ready` and the direction that `move_direction` was called with.
pub data ElevatorPc : Type 0 where
  idle : ElevatorPc
  open_first open_second open_update announcing holding : ℤ → ElevatorPc
  close_first close_update moving : ℤ → ElevatorPc
  move_first move_second move_update : ℤ → ℤ → ElevatorPc
  landing : ℤ → ElevatorPc

-- Where the thread of a passenger stands.
pub data PassengerPc : Type 0 where
  resting calling hailing enter_first enter_second enter_update boarding : PassengerPc
  riding exit_first exit_second exit_update leaving returned : PassengerPc

-- What a section comes to: the thread goes on, it has to wait, the enforcement system ends the
-- program, or a list operation fails.
pub data Outcome (A : Type 0) : Type 0 where
  moved : A → Outcome A
  blocked : Outcome A
  violates : Violation → Outcome A
  fails : Outcome A

-- What an elevator's thread works on: an element of each array, and its place.
pub record Lift : Type 0 where
  pub info : ElevatorInfo
  pub car : Car
  pub pc : ElevatorPc

-- What a passenger's thread works on.
pub record Trip : Type 0 where
  pub info : ElevatorInfo
  pub store : Store
  pub car : Car
  pub rider : Rider
  pub pc : PassengerPc

-- A check of the enforcement system.
abbrev pub checked : {A : Type 0} → Checked (Unit {0}) → A → Outcome A
checked (Enforcer.ok _) a = moved a
checked (Enforcer.violation v) a = violates v

abbrev pub when : {A : Type 0} → Bool → A → Outcome A
when true a = moved a
when false a = blocked

-- A list operation.
abbrev pub listed : {A B : Type 0} → Riding.Run A → (A → B) → Outcome B
listed (Riding.ok a) f = moved (f a)
listed Riding.null_deref f = fails
listed Riding.assert_failed f = fails
listed Riding.out_of_fuel f = fails

-- A list of riders has at most `PASSENGERS` nodes.
abbrev pub fuel : ℕ
fuel = passengers + 1

abbrev pub elevator_self : ℕ → Self
elevator_self e = record { type = ThreadType.elevator; id = e }

abbrev pub passenger_self : ℕ → Self
passenger_self p = record { type = ThreadType.passenger; id = p }

-- The test `wait_at == at_floor`.
abbrev pub planned : ℤ → ElevatorInfo → ElevatorPc
planned at info = if info.wait_at ==ℤ at then open_first at else moving at

-- `start_elevator`'s loop with `elevator_ready`.
unfoldable pub lift_section : ℕ → Store → Lift → Outcome Lift
lift_section e store l =
    let info : ElevatorInfo = l.info in
    let car : Car = l.car in
    elim l.pc [
      | idle ↦
          if may_run info
          then listed (plan fuel e car.floor info store)
              (λ info'. record l { info = info'; pc = planned car.floor info' })
          else blocked
      | open_first at ↦
          checked (elevator_open_door_check (elevator_self e) e car)
            (record l { pc = open_second at })
      | open_second at ↦
          checked (elevator_open_door_check (elevator_self e) e car)
            (record l { pc = open_update at })
      | open_update at ↦ moved (record l { car = elevator_open_door car; pc = announcing at })
      | announcing at ↦ moved (record l { info = announce info; pc = holding at })
      | holding at ↦
          when info.is_passenger_ready (record l { info = acknowledge info; pc = close_first at })
      | close_first at ↦
          checked (elevator_close_door_check (elevator_self e) e car)
            (record l { pc = close_update at })
      | close_update at ↦ moved (record l { car = elevator_close_door car; pc = moving at })
      | moving at ↦ moved (record l { pc = move_first at info.elevator_direction })
      | move_first at d ↦
          checked (elevator_move_direction_check (elevator_self e) e car)
            (record l { pc = move_second at d })
      | move_second at d ↦
          checked (elevator_move_direction_check (elevator_self e) e car)
            (record l { pc = move_update at d })
      | move_update at d ↦ moved (record l { car = elevator_move_direction d car; pc = landing at })
      | landing at ↦ moved (record l { info = arrive at info; pc = idle })
    ]

-- There is a place left in the array `waitlist`.
abbrev pub has_room : ElevatorInfo → Bool
has_room info = ltb info.wait_count passengers

-- The sections of a passenger's thread, with a test of `is_elevator_ready` and the reset behind it taken
-- as one: what they come to when nothing of the same elevator stands between the two.
unfoldable pub whole_section : ℕ → ℤ → Trip → Outcome Trip
whole_section p goal t =
    let e : ℕ = elevator_of p in
    let info : ElevatorInfo = t.info in
    let car : Car = t.car in
    let rider : Rider = t.rider in
    elim t.pc [
      | resting ↦ moved (record t { rider = begin_trip goal rider; pc = calling })
      | calling ↦ when (has_room info) (record t {
        info = submit_request rider.from_floor info;
        store = update t.store p (submit_passenger p rider.from_floor rider.to_floor (t.store p));
        pc = hailing;
      })
      | hailing ↦
          when (may_board info rider.from_floor)
            (record t { info = claim_to_board rider.from_floor info; pc = enter_first })
      | enter_first ↦
          checked (passenger_enter_check (passenger_self p) p car rider)
            (record t { pc = enter_second })
      | enter_second ↦
          checked (passenger_enter_check (passenger_self p) p car rider)
            (record t { pc = enter_update })
      | enter_update ↦
          (let r = passenger_enter e car rider in
            moved (record t { car = r.0; rider = r.1; pc = boarding }))
      | boarding ↦
          listed (board fuel p info t.store)
            (λ r. record t { info = r.0; store = r.1; pc = riding })
      | riding ↦
          when (may_leave info rider.to_floor)
            (record t { info = claim_to_leave info; pc = exit_first })
      | exit_first ↦
          checked (passenger_exit_check (passenger_self p) p e car rider)
            (record t { pc = exit_second })
      | exit_second ↦
          checked (passenger_exit_check (passenger_self p) p e car rider)
            (record t { pc = exit_update })
      | exit_update ↦
          (let r = passenger_exit car rider in
            moved (record t { car = r.0; rider = r.1; pc = leaving }))
      | leaving ↦
          listed (leave fuel p info t.store)
            (λ r. record t { info = r.0; store = r.1; pc = returned })
      | returned ↦
          checked (end_trip_check rider) (record t { rider = end_trip rider; pc = resting })
    ]
