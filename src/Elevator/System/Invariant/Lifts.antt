-- ===== src/Elevator/System/Invariant/Lifts.antt =====
-- Each section of an elevator's thread keeps the invariant of its elevator, and none fails.
use cs361_projects.Prelude.{
  ℕ, zero, suc, ◌+◌, ◌≡◌, refl, ap, ◌∙◌, inl, inr, Bool, false, ◌&&◌, Option, none, some, List, [],
  ◌∷◌, arith, ◌==◌, Bool-cases, length, All,
}
use cs361_projects.Prelude.Int.{ℤ, pos, ◌+ℤ◌, ◌==ℤ◌}
use cs361_projects.Elevator.Config.{passengers}
use cs361_projects.Elevator.Riding.{Store}
use cs361_projects.Elevator.Enforcer.{
  Car, Rider, elevator_open_door, elevator_close_door, elevator_move_direction,
}
use cs361_projects.Elevator.Scheduler.{
  ElevatorInfo, may_run, announce, acknowledge, arrive, elevator_of,
}
use cs361_projects.Elevator.Scheduler.Target.{candidates, goals_of, waiting_floors}
use cs361_projects.Elevator.Scheduler.Direction.{InBuilding, plan_lem}
use cs361_projects.Elevator.System.Steps
use cs361_projects.Elevator.System.Steps.{Lift, lift_section, planned, fuel}
use cs361_projects.Elevator.System.Invariant.Defs.{
  is_holding, inside_count, busy, is_actor, Turn, Cabin, People, Floors, CarInv, Fine,
}
use cs361_projects.Elevator.System.Invariant.Turns.{Person-idle}
use cs361_projects.Elevator.System.Invariant.Checks.{
  elevator_open_door_check-ok, elevator_close_door_check-ok, elevator_move_direction_check-ok,
}

pub goals-InBuilding :
    (store : Store)
    → ((p : ℕ) → InBuilding (store p).to_floor)
    → (xs : List ℕ) → All InBuilding (goals_of store xs)
goals-InBuilding store h [] = tt
goals-InBuilding store h (x ∷ xs) = (h x, goals-InBuilding store h xs)

pub waiting-InBuilding :
    (e : ℕ) (store : Store)
    → ((p : ℕ) → InBuilding (store p).from_floor)
    → (n i : ℕ) → All InBuilding (waiting_floors n i e store)
unfolding waiting_floors
waiting-InBuilding e store h zero i = tt
waiting-InBuilding e store h (suc n) i =
    let rest = waiting-InBuilding e store h n (i + 1) in
    elim (Bool-cases (((store i).status == 0) && ((store i).elenumber == e))) [
      | inl waits ↦ rw waits (h i, rest)
      | inr other ↦ rw other rest
    ]

candidates-InBuilding :
    (e : ℕ) (store : Store) (riders : ℕ → Rider)
    → Floors store riders
    → (xs : List ℕ) → All InBuilding (candidates e store xs)
unfolding candidates
candidates-InBuilding e store riders f [] =
    waiting-InBuilding e store (λ p. (f.stored p).0) passengers 0
candidates-InBuilding e store riders f (x ∷ xs) =
    goals-InBuilding store (λ p. (f.stored p).1) (x ∷ xs)

-- Away from the wait no passenger has the turn.
pub nobody :
    {e : ℕ} {r s : Bool} {pc : Steps.ElevatorPc} {trips : ℕ → Steps.PassengerPc} {actor : Option ℕ}
    → Turn e r s pc trips actor
    → is_holding pc ≡ false
    → actor ≡ none
nobody {actor = none} t h = refl
nobody {actor = some p} t h = absurd (ground (arith, t.single))

-- The floor matters only to those who have the turn.
People-move :
    (e : ℕ) (floor floor' : ℤ) (n : ℕ) (riders : ℕ → Rider) (trips : ℕ → Steps.PassengerPc)
    → People e floor n riders trips
    → ((p : ℕ) → (busy (trips p) && (elevator_of p == e)) ≡ false)
    → People e floor' n riders trips
People-move e floor floor' n riders trips people idle p on =
    Person-idle e floor floor' n n (riders p) (trips p) (ground (arith, idle p)) (people p on)

module _ (e : ℕ) (store : Store) (riders : ℕ → Rider) (trips : ℕ → Steps.PassengerPc) (xs : List ℕ)
    (actor : Option ℕ) where
  abbrev pub Keeps : Lift → Type 0
  Keeps l = CarInv e l.info l.car l.pc store riders trips xs actor

  module _ {info : ElevatorInfo} {car : Car} {pc : Steps.ElevatorPc}
      (inv : CarInv e info car pc store riders trips xs actor) where
    -- Away from the wait the enforcement system counts the riders on the list.
    alone : is_holding pc ≡ false → car.passengers ≡ pos (length xs)
    alone h = inv.inside ∙ ap (λ a. pos (inside_count trips a (length xs))) (nobody inv.turn h)

    -- Steps that touch the door and the place in the code alone.
    goto :
        (car' : Car) (pc' : Steps.ElevatorPc)
        → is_holding pc' ≡ is_holding pc
        → car'.passengers ≡ car.passengers
        → car'.floor ≡ car.floor
        → Cabin info car' pc'
        → Keeps (record { info = info; car = car'; pc = pc' })
    goto car' pc' same p f cabin = record {
      on_list = inv.on_list;
      turn = record { acting = inv.turn.acting; single = rw same inv.turn.single };
      cabin = cabin;
      inside = p ∙ inv.inside;
      people = rw f inv.people;
      floors = inv.floors;
    }

  -- A planned stop or a planned departure.
  depart :
      (info : ElevatorInfo) (car : Car) (w d : ℤ) (pc : Steps.ElevatorPc)
      → CarInv e info car Steps.idle store riders trips xs actor
      → is_holding pc ≡ false
      → Cabin (record info { wait_at = w; elevator_direction = d }) car pc
      → Keeps (record {
        info = record info { wait_at = w; elevator_direction = d };
        car = car;
        pc = pc;
      })
  depart info car w d pc inv same cabin = record {
    on_list = inv.on_list;
    turn = record { acting = inv.turn.acting; single = rw same inv.turn.single };
    cabin = cabin;
    inside = inv.inside;
    people = inv.people;
    floors = inv.floors;
  }

  idle-Fine :
      (info : ElevatorInfo) (car : Car)
      → CarInv e info car Steps.idle store riders trips xs actor
      → Fine Keeps (lift_section e store (record { info = info; car = car; pc = Steps.idle }))
  unfolding lift_section
  idle-Fine info car inv = elim (Bool-cases (may_run info)) [
    | inl runs ↦
        let (w, d, done, target, dir, next, progress) =
          plan_lem fuel e car.floor info store xs inv.on_list.chain
            (ground (arith, inv.on_list.few)) inv.cabin.no_next inv.cabin.direction inv.cabin.here
            (waiting-InBuilding e store (λ p. (inv.floors.stored p).0) passengers 0)
            (candidates-InBuilding e store riders inv.floors xs) in
        rw (runs, done)
          (elim (Bool-cases (w ==ℤ car.floor)) [
            | inl arrived ↦ rw arrived (
                depart info car w d (Steps.open_first car.floor) inv refl
                  (ground (arith, inv.cabin)))
            | inr away ↦
                rw away (
                  depart info car w d (Steps.moving car.floor) inv refl (ground (arith, inv.cabin)))
          ])
    | inr waits ↦ rw waits tt
  ]

  move_update-Fine :
      (info : ElevatorInfo) (car : Car) (at d : ℤ)
      → CarInv e info car (Steps.move_update at d) store riders trips xs actor
      → Keeps (record { info = info; car = elevator_move_direction d car; pc = Steps.landing at })
  unfolding elevator_move_direction
  move_update-Fine info car at d inv =
      let none_acts = nobody inv.turn refl in
      record {
        on_list = inv.on_list;
        turn = record { acting = inv.turn.acting; single = inv.turn.single };
        cabin = ground (arith, inv.cabin);
        inside = inv.inside;
        people =
            People-move e car.floor (car.floor +ℤ d) (length xs) riders trips inv.people
              (λ p. inv.turn.acting p ∙ ap (λ a. is_actor a p) none_acts);
        floors = inv.floors;
      }

  pub Lift-Fine :
      (info : ElevatorInfo) (car : Car) (pc : Steps.ElevatorPc)
      → CarInv e info car pc store riders trips xs actor
      → Fine Keeps (lift_section e store (record { info = info; car = car; pc = pc }))
  unfolding lift_section elevator_open_door elevator_close_door announce acknowledge arrive
  Lift-Fine info car Steps.idle inv = idle-Fine info car inv
  Lift-Fine info car (Steps.open_first at) inv =
      rw
        (elevator_open_door_check-ok e (length xs) car (alone inv refl) inv.on_list.few
          inv.cabin.door)
        (goto inv car (Steps.open_second at) refl refl refl (ground (arith, inv.cabin)))
  Lift-Fine info car (Steps.open_second at) inv =
      rw
        (elevator_open_door_check-ok e (length xs) car (alone inv refl) inv.on_list.few
          inv.cabin.door)
        (goto inv car (Steps.open_update at) refl refl refl (ground (arith, inv.cabin)))
  Lift-Fine info car (Steps.open_update at) inv =
      goto inv (elevator_open_door car) (Steps.announcing at) refl refl refl
        (ground (arith, inv.cabin))
  Lift-Fine info car (Steps.announcing at) inv = record {
    on_list = inv.on_list;
    turn = record { acting = inv.turn.acting; single = ground (arith, inv.turn.single) };
    cabin = ground (arith, inv.cabin);
    inside = inv.inside;
    people = inv.people;
    floors = inv.floors;
  }
  Lift-Fine info car (Steps.holding at) inv = elim (Bool-cases info.is_passenger_ready) [
    | inl given ↦ rw given (record {
      on_list = inv.on_list;
      turn = record { acting = inv.turn.acting; single = ground (arith, inv.turn.single) };
      cabin = ground (arith, inv.cabin);
      inside = inv.inside;
      people = inv.people;
      floors = inv.floors;
    })
    | inr taken ↦ rw taken tt
  ]
  Lift-Fine info car (Steps.close_first at) inv =
      rw
        (elevator_close_door_check-ok e (length xs) car (alone inv refl) inv.on_list.few
          inv.cabin.door)
        (goto inv car (Steps.close_update at) refl refl refl (ground (arith, inv.cabin)))
  Lift-Fine info car (Steps.close_update at) inv =
      goto inv (elevator_close_door car) (Steps.moving at) refl refl refl
        (ground (arith, inv.cabin))
  Lift-Fine info car (Steps.moving at) inv =
      goto inv car (Steps.move_first at info.elevator_direction) refl refl refl
        (ground (arith, inv.cabin))
  Lift-Fine info car (Steps.move_first at d) inv =
      rw
        (elevator_move_direction_check-ok e (length xs) car (alone inv refl) inv.on_list.few
          inv.cabin.door inv.cabin.here)
        (goto inv car (Steps.move_second at d) refl refl refl (ground (arith, inv.cabin)))
  Lift-Fine info car (Steps.move_second at d) inv =
      rw
        (elevator_move_direction_check-ok e (length xs) car (alone inv refl) inv.on_list.few
          inv.cabin.door inv.cabin.here)
        (goto inv car (Steps.move_update at d) refl refl refl (ground (arith, inv.cabin)))
  Lift-Fine info car (Steps.move_update at d) inv = move_update-Fine info car at d inv
  Lift-Fine info car (Steps.landing at) inv = record {
    on_list = inv.on_list;
    turn = record { acting = inv.turn.acting; single = inv.turn.single };
    cabin = ground (arith, inv.cabin);
    inside = inv.inside;
    people = inv.people;
    floors = inv.floors;
  }
