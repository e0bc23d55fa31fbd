-- ===== src/Elevator/System/Invariant/Trips.antt =====
-- Each section of a passenger's thread keeps the invariant of her elevator, and none fails.
use cs361_projects.Prelude.{
  ℕ, ◌+◌, ◌-◌, ◌<◌, ◌≡◌, refl, ap, ◌∙◌, sym, inl, inr, true, false, Option, none, some, List, [],
  ◌∷◌, ◌++◌, arith, Bool-cases, length, length-append,
}
use cs361_projects.Prelude.Int.{ℤ, pos, ◌+ℤ◌, ◌-ℤ◌}
use cs361_projects.Prelude.Links.{Ptr, update, update_self, ◌∈◌, erase, length-erase}
use cs361_projects.Elevator.Config.{max_capacity}
use cs361_projects.Elevator.Riding.{Store}
use cs361_projects.Elevator.Enforcer
use cs361_projects.Elevator.Enforcer.{
  passenger_enter_check, passenger_exit_check, Car, Rider, passenger_enter, passenger_exit,
  begin_trip, end_trip, end_trip_check,
}
use cs361_projects.Elevator.Scheduler.{
  ElevatorInfo, may_board, may_leave, elevator_of, submit_request, submit_passenger, claim_to_board,
  claim_to_leave,
}
use cs361_projects.Elevator.Scheduler.Direction.{InBuilding}
use cs361_projects.Elevator.System.Steps
use cs361_projects.Elevator.System.Steps.{Trip, whole_section, fuel, passenger_self}
use cs361_projects.Elevator.System.Invariant.Defs.{
  inside_count, inside_after, busy, aboard, Riders, Turn, Person, Entering, Inside, Exiting, CarInv,
  Fine,
}
use cs361_projects.Elevator.System.Invariant.Turns.{
  Riders-same, Turn-same, Turn-take, Turn-give, People-same, People-count, Floors-same, inside-same,
  held, Cabin-count, offered, taken,
}
use cs361_projects.Elevator.System.Invariant.Lists.{
  SameFloors, SameOthers, board-Riders, leave-Riders,
}
use cs361_projects.Elevator.System.Invariant.Checks.{
  passenger_enter_check-ok, passenger_exit_check-ok, end_trip_check-ok,
}

plus_one : (car : Car) (n : ℕ) → car.passengers ≡ pos n → car.passengers +ℤ pos 1 ≡ pos (n + 1)
unfolding ◌+ℤ◌
plus_one car n h = ground arith

minus_one :
    (car : Car) (n : ℕ) → car.passengers ≡ pos n → 0 < n → car.passengers -ℤ pos 1 ≡ pos (n - 1)
unfolding ◌-ℤ◌
minus_one car n h some_in = ground arith

module _ (p : ℕ) (info : ElevatorInfo) (car : Car) (lift : Steps.ElevatorPc) (store : Store)
    (riders : ℕ → Rider) (trips : ℕ → Steps.PassengerPc) where
  abbrev pub e : ℕ
  e = elevator_of p

  -- The invariant of the passenger's elevator behind her section, for some riders and some actor.
  abbrev pub After : Trip → Type 0
  After t =
      (xs : List ℕ) × (actor : Option ℕ) × CarInv e t.info t.car lift t.store
        (update riders p t.rider) (update trips p t.pc) xs actor
      × SameOthers p store t.store

  abbrev pub now : Steps.PassengerPc → Trip
  now pc = record { info = info; store = store; car = car; rider = riders p; pc = pc }

  module _ (xs : List ℕ) (actor : Option ℕ)
      (inv : CarInv e info car lift store riders trips xs actor) where
    abbrev n : ℕ
    n = length xs

    -- She moves on in the code and in her own record alone.
    walk :
        (rider : Rider) (pc : Steps.PassengerPc)
        → aboard pc ≡ aboard (trips p)
        → busy pc ≡ busy (trips p)
        → inside_after pc n ≡ inside_after (trips p) n
        → InBuilding rider.from_floor
        → InBuilding rider.to_floor
        → Person e car.floor n rider pc
        → After (record { info = info; store = store; car = car; rider = rider; pc = pc })
    walk rider pc on turns both from to person = (
      xs,
      actor,
      record {
        on_list = Riders-same p pc trips store on (λ q. refl) inv.on_list;
        turn = Turn-same p pc trips turns inv.turn;
        cabin = inv.cabin;
        inside = inv.inside ∙ ap pos (sym (inside-same p pc trips actor n both));
        people = People-same p pc trips car.floor n riders rider person inv.people;
        floors = Floors-same p pc trips rider from to inv.floors;
      },
      λ q other. refl,
    )

    here : Person e car.floor n (riders p) (trips p)
    here = inv.people p refl

    -- She takes the turn at the open door.
    take_turn :
        (w : ℤ) (pc : Steps.PassengerPc)
        → aboard pc ≡ aboard (trips p)
        → busy pc ≡ true
        → busy (trips p) ≡ false
        → inside_after pc n ≡ n
        → info.is_elevator_ready ≡ true
        → Person e car.floor n (riders p) pc
        → After (record {
          info = record info { wait_at = w; is_elevator_ready = false };
          store = store;
          car = car;
          rider = riders p;
          pc = pc;
        })
    take_turn w pc on takes off both ready person =
        let turn : Turn e true info.is_passenger_ready lift trips actor = rw ready at inv.turn in
        (
          xs,
          some p,
          record {
            on_list = Riders-same p pc trips store on (λ q. refl) inv.on_list;
            turn = Turn-take p pc trips off takes turn;
            cabin = ground (arith, inv.cabin);
            inside =
                inv.inside
                ∙ ap (λ a. pos (inside_count trips a n)) (offered turn).1
                ∙ ap pos (sym (rw (update_self trips p pc) both));
            people = People-same p pc trips car.floor n riders (riders p) person inv.people;
            floors =
                Floors-same p pc trips (riders p) (inv.floors.asked p).0 (inv.floors.asked p).1
                  inv.floors;
          },
          λ q other. refl,
        )

    -- She steps over the threshold, as the enforcement system counts.
    cross :
        (count : ℤ) (rounds : ℕ) (rider : Rider) (pc : Steps.PassengerPc)
        → aboard pc ≡ aboard (trips p)
        → busy pc ≡ true
        → busy (trips p) ≡ true
        → count ≡ pos (inside_after pc n)
        → InBuilding rider.from_floor
        → InBuilding rider.to_floor
        → Person e car.floor n rider pc
        → After (record {
          info = info;
          store = store;
          car = record car { passengers = count; trips = rounds };
          rider = rider;
          pc = pc;
        })
    cross count rounds rider pc on turns held' counted from to person =
        let turn = Turn-same p pc trips (turns ∙ sym held') inv.turn in
        let waits = (taken p n inv.turn held').0 in
        (
          xs,
          actor,
          record {
            on_list = Riders-same p pc trips store on (λ q. refl) inv.on_list;
            turn = turn;
            cabin = Cabin-count info car lift count rounds waits inv.cabin;
            inside =
                counted
                ∙ ap pos (
                    sym (
                      (taken p n turn (rw (update_self trips p pc) turns)).1
                      ∙ ap (λ c. inside_after c n) (update_self trips p pc)));
            people = People-same p pc trips car.floor n riders rider person inv.people;
            floors = Floors-same p pc trips rider from to inv.floors;
          },
          λ q other. refl,
        )

    -- Both records count her alike again, and she gives the turn back.
    give_turn :
        (count : ℤ) (head : Ptr) (store' : Store) (pc : Steps.PassengerPc) (ys : List ℕ)
        → busy (trips p) ≡ true
        → busy pc ≡ false
        → inside_after (trips p) n ≡ length ys
        → Riders e head count store' (update trips p pc) ys
        → SameFloors store store'
        → SameOthers p store store'
        → Person e car.floor (length ys) (riders p) pc
        → After (record {
          info = record info { passenger_count = count; riding = head; is_passenger_ready = true };
          store = store';
          car = car;
          rider = riders p;
          pc = pc;
        })
    give_turn count head store' pc ys turns ends both list floors others person = (
      ys,
      none,
      record {
        on_list = list;
        turn = Turn-give p pc trips turns ends inv.turn;
        cabin = ground (arith, inv.cabin);
        inside = inv.inside ∙ ap pos ((taken p n inv.turn turns).1 ∙ both);
        people =
            People-count p pc trips car.floor n (length ys) riders (riders p) turns inv.turn person
              inv.people;
        floors = record {
          stored = λ q. rw ((floors q).0, (floors q).1) (inv.floors.stored q);
          asked = λ q. ground (arith, inv.floors.asked q);
        };
      },
      others,
    )

    asked : InBuilding (riders p).from_floor × InBuilding (riders p).to_floor
    asked = inv.floors.asked p

    calling-Fine :
        (goal : ℤ) → trips p ≡ Steps.calling → Fine After (whole_section p goal (now Steps.calling))
    unfolding whole_section submit_request submit_passenger
    calling-Fine goal at = elim (Bool-cases (Steps.has_room info)) [
      | inr full ↦ rw full tt
      | inl room ↦ rw room (
        xs,
        actor,
        record {
          on_list =
              Riders-same p Steps.hailing trips _ (ground arith) (λ q. ground arith) inv.on_list;
          turn = Turn-same p Steps.hailing trips (ground arith) inv.turn;
          cabin = ground (arith, inv.cabin);
          inside =
              inv.inside ∙ ap pos (sym (inside-same p Steps.hailing trips actor n (ground arith)));
          people =
              People-same p Steps.hailing trips car.floor n riders (riders p) (ground (arith, here))
                inv.people;
          floors = record {
            stored = λ q. ground (arith, inv.floors.stored q, asked);
            asked = λ q. ground (arith, inv.floors.asked q);
          };
        },
        λ q other. ground arith,
      )
    ]

    -- What the guards of the two waits say.
    may-board :
        may_board info (riders p).from_floor ≡ true
        → (info.is_elevator_ready ≡ true)
          × (info.elevator_floor ≡ (riders p).from_floor)
          × (n < max_capacity)
    unfolding may_board
    may-board may = ground (arith, inv.on_list.counted)

    may-leave :
        may_leave info (riders p).to_floor ≡ true
        → (info.is_elevator_ready ≡ true) × (info.elevator_floor ≡ (riders p).to_floor)
    unfolding may_leave
    may-leave may = ground arith

    -- With the turn on offer, and with the turn taken, the door is open and the floors agree.
    at_door : info.is_elevator_ready ≡ true → info.elevator_floor ≡ car.floor
    at_door ready =
        let turn : Turn e true info.is_passenger_ready lift trips actor = rw ready at inv.turn in
        (held info car lift (offered turn).0 inv.cabin).1

    opened : busy (trips p) ≡ true → car.is_open ≡ true
    opened turns = (held info car lift (taken p n inv.turn turns).0 inv.cabin).0

    counted_for : busy (trips p) ≡ true → car.passengers ≡ pos (inside_after (trips p) n)
    counted_for turns = inv.inside ∙ ap pos (taken p n inv.turn turns).1

    enter_check :
        busy (trips p) ≡ true
        → inside_after (trips p) n ≡ n
        → Entering car.floor n (riders p)
        → passenger_enter_check (passenger_self p) p car (riders p) ≡ Enforcer.ok tt
    enter_check turns level h =
        passenger_enter_check-ok p n car (riders p) (counted_for turns ∙ ap pos level)
          (opened turns) h

    exit_check :
        busy (trips p) ≡ true
        → Exiting e car.floor (riders p)
        → passenger_exit_check (passenger_self p) p e car (riders p) ≡ Enforcer.ok tt
    exit_check turns h = passenger_exit_check-ok p e car (riders p) (opened turns) h

    hailing-Fine :
        (goal : ℤ) → trips p ≡ Steps.hailing → Fine After (whole_section p goal (now Steps.hailing))
    unfolding whole_section claim_to_board
    hailing-Fine goal at = elim (Bool-cases (may_board info (riders p).from_floor)) [
      | inl may ↦
          let (ready, level, room) = may-board may in
          rw may (
            take_turn (riders p).from_floor Steps.enter_first (rw at refl) refl (rw at refl) refl
              ready (ground (arith, here), sym level ∙ at_door ready, room))
      | inr waits ↦ rw waits tt
    ]

    riding-Fine :
        (goal : ℤ) → trips p ≡ Steps.riding → Fine After (whole_section p goal (now Steps.riding))
    unfolding whole_section claim_to_leave
    riding-Fine goal at = elim (Bool-cases (may_leave info (riders p).to_floor)) [
      | inl may ↦
          let (ready, level) = may-leave may in
          rw may (
            take_turn info.wait_at Steps.exit_first (rw at refl) refl (rw at refl) refl ready
              (ground (arith, here, level, at_door ready)))
      | inr waits ↦ rw waits tt
    ]

    on_list : aboard (trips p) ≡ true → p ∈ xs
    on_list on = ground (arith, inv.on_list.members p)

    pub Trip-Fine :
        (goal : ℤ)
        → InBuilding goal
        → (pc : Steps.PassengerPc) → trips p ≡ pc
        → Fine After (whole_section p goal (now pc))
    unfolding whole_section begin_trip end_trip passenger_enter passenger_exit
    Trip-Fine goal b Steps.resting at =
        walk (begin_trip goal (riders p)) Steps.calling (rw at refl) (rw at refl) (rw at refl)
          asked.0 b refl
    Trip-Fine goal b Steps.calling at = calling-Fine goal at
    Trip-Fine goal b Steps.hailing at = hailing-Fine goal at
    Trip-Fine goal b Steps.enter_first at =
        let h : Entering car.floor n (riders p) = rw at at here in
        rw (enter_check (rw at refl) (rw at refl) h) (
          walk (riders p) Steps.enter_second (rw at refl) (rw at refl) (rw at refl) asked.0 asked.1
            h)
    Trip-Fine goal b Steps.enter_second at =
        let h : Entering car.floor n (riders p) = rw at at here in
        rw (enter_check (rw at refl) (rw at refl) h) (
          walk (riders p) Steps.enter_update (rw at refl) (rw at refl) (rw at refl) asked.0 asked.1
            h)
    Trip-Fine goal b Steps.enter_update at =
        let h : Entering car.floor n (riders p) = rw at at here in
        cross (car.passengers +ℤ pos 1) car.trips (passenger_enter e car (riders p)).1
          Steps.boarding (rw at refl) refl (rw at refl)
          (plus_one car n (counted_for (rw at refl) ∙ rw at refl)) asked.0 asked.1
          ((refl, refl), h.2)
    Trip-Fine goal b Steps.boarding at =
        let h : Inside e (riders p) × (n < max_capacity) = rw at at here in
        let (head, store', done, list, floors, others) =
          board-Riders p info store trips xs inv.on_list at h.1 in
        rw done (
          give_turn (info.passenger_count +ℤ pos 1) head store' Steps.riding (xs ++ p ∷ [])
            (rw at refl) refl (rw at (omega (arith, length-append xs (p ∷ [])))) list floors others
            h.0)
    Trip-Fine goal b Steps.riding at = riding-Fine goal at
    Trip-Fine goal b Steps.exit_first at =
        let h : Exiting e car.floor (riders p) = rw at at here in
        rw (exit_check (rw at refl) h) (
          walk (riders p) Steps.exit_second (rw at refl) (rw at refl) (rw at refl) asked.0 asked.1
            h)
    Trip-Fine goal b Steps.exit_second at =
        let h : Exiting e car.floor (riders p) = rw at at here in
        rw (exit_check (rw at refl) h) (
          walk (riders p) Steps.exit_update (rw at refl) (rw at refl) (rw at refl) asked.0 asked.1
            h)
    Trip-Fine goal b Steps.exit_update at =
        let h : Exiting e car.floor (riders p) = rw at at here in
        cross (car.passengers -ℤ pos 1) (car.trips + 1) (passenger_exit car (riders p)).1
          Steps.leaving (rw at refl) refl (rw at refl)
          (minus_one car n (counted_for (rw at refl) ∙ rw at refl)
            (omega (arith, length-erase p xs (on_list (rw at refl)))))
          asked.0 asked.1 (sym h.2)
    Trip-Fine goal b Steps.leaving at =
        let h : (riders p).at_floor ≡ (riders p).to_floor = rw at at here in
        let (head, store', done, list, floors, others) =
          leave-Riders p info store trips xs inv.on_list at in
        rw done (
          give_turn (info.passenger_count -ℤ pos 1) head store' Steps.returned (erase p xs)
            (rw at refl) refl (rw at (omega (arith, length-erase p xs (on_list (rw at refl))))) list
            floors others h)
    Trip-Fine goal b Steps.returned at =
        let h : (riders p).at_floor ≡ (riders p).to_floor = rw at at here in
        rw (end_trip_check-ok (riders p) h) (
          walk (end_trip (riders p)) Steps.resting (rw at refl) (rw at refl) (rw at refl) asked.1
            asked.1 tt)
