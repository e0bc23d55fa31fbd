-- ===== src/Elevator/System/Safety.antt =====
-- What holds in every state that whole sections reach.
use cs361_projects.Prelude.{
  ℕ, ◌≤◌, ◌<◌, ◌≡◌, refl, sym, ◌∙◌, subst, inl, inr, Bool, true, false, Option, none, some, List,
  [], arith, ◌==◌, Bool-cases, length,
}
use cs361_projects.Prelude.Int.{ℤ, pos, ◌≤ℤ◌}
use cs361_projects.Prelude.Links.{update}
use cs361_projects.Elevator.Config.{max_capacity, elevators}
use cs361_projects.Elevator.Enforcer.{Rider, start_elevator, start_passenger}
use cs361_projects.Elevator.Scheduler.{elevator_of, init_elevator, zero_scheduler}
use cs361_projects.Elevator.Scheduler.Init.{scheduler_init_lem}
use cs361_projects.Elevator.Scheduler.Direction.{InBuilding}
use cs361_projects.Elevator.System
use cs361_projects.Elevator.System.{
  ElevatorPc, PassengerPc, System, Outcome, Lift, Trip, moved, blocked, lift_section, whole_section,
  lift_step, whole_step, put_lift, put_trip, WholeStep, returned, idle, initial, WholeReach,
}
use cs361_projects.Elevator.System.Invariant.{
  CarInv, Fine, Lift-Fine, Trip-Fine, CarInv-other, busy, held, only-actor, taken, Turn, People,
  Person, inside_after, inside_count,
}

-- Elevator `e` of a system, with some riders and some actor.
abbrev pub Holds : System → ℕ → Type 0
Holds s e =
    (xs : List ℕ) × (actor : Option ℕ) × CarInv e (s.infos e) (s.cars e) (s.lifts e) s.store
      s.riders s.trips xs actor

abbrev pub SystemInv : System → Type 0
SystemInv s = (e : ℕ) → e < elevators → Holds s e

initial-SystemInv :
    (origin : ℕ → ℤ) → ((p : ℕ) → InBuilding (origin p)) → SystemInv (initial origin)
unfolding init_elevator start_elevator start_passenger
initial-SystemInv origin b e lt =
    let set : (initial origin).infos e ≡ init_elevator (zero_scheduler.elevators e) =
      (scheduler_init_lem zero_scheduler e).0 ∙ ground arith in
    (
      [],
      none,
      subst
          (λ i.
            CarInv e i ((initial origin).cars e) idle (initial origin).store (initial origin).riders
              (initial origin).trips [] none)
          (sym set)
          (rw (scheduler_init_lem zero_scheduler e).1 (record {
            on_list = record {
              chain = refl;
              distinct = tt;
              few = ground arith;
              counted = refl;
              members = λ p. refl;
              loose = λ p off. refl;
            };
            turn = record { acting = λ p. refl; single = ground arith };
            cabin = ground arith;
            inside = refl;
            people = λ p on. tt;
            floors = record { stored = λ p. ground arith; asked = λ p. (b p, ground arith) };
          })),
    )

Fine-moved : {A : Type 0} (P : A → Type 0) (o : Outcome A) {a : A} → Fine P o → o ≡ moved a → P a
Fine-moved P o f h = rw h at f

lift-SystemInv :
    {s : System} (e : ℕ) (l : Lift)
    → e < elevators
    → lift_step e s ≡ moved l
    → SystemInv s
    → SystemInv (put_lift s e l)
lift-SystemInv {s} e l lt done inv e' lt' = elim (Bool-cases (e == e')) [
  | inl self ↦
      let same : e ≡ e' = ground arith in
      let (xs, actor, h) = inv e lt in
      rw self (
        xs,
        actor,
        subst (λ k. CarInv k l.info l.car l.pc s.store s.riders s.trips xs actor) same
            (Fine-moved _ (lift_step e s)
              (Lift-Fine e s.store s.riders s.trips xs actor (s.infos e) (s.cars e) (s.lifts e) h)
              done),
      )
  | inr other ↦ rw other (inv e' lt')
]

elevator_of-lt : (p : ℕ) → elevator_of p < elevators
elevator_of-lt p = omega arith

trip-SystemInv :
    {s : System} (p : ℕ) (goal : ℤ) (t : Trip)
    → InBuilding goal
    → whole_step p goal s ≡ moved t
    → SystemInv s
    → SystemInv (put_trip s p t)
trip-SystemInv {s} p goal t b done inv e' lt' =
    let (xs, actor, h) = inv (elevator_of p) (elevator_of-lt p) in
    let (xs', actor', h', others) =
      Fine-moved _ (whole_step p goal s)
        (Trip-Fine p (s.infos (elevator_of p)) (s.cars (elevator_of p)) (s.lifts (elevator_of p))
          s.store s.riders s.trips xs actor h goal b (s.trips p) refl)
        done in
    elim (Bool-cases (elevator_of p == e')) [
      | inl self ↦
          let same : elevator_of p ≡ e' = ground arith in
          rw self (
            xs',
            actor',
            subst
                (λ k.
                  CarInv k t.info t.car (s.lifts k) t.store (update s.riders p t.rider)
                    (update s.trips p t.pc) xs' actor')
                same h',
          )
      | inr other ↦
          let (ys, actor'', k) = inv e' lt' in
          rw other (
            ys,
            actor'',
            CarInv-other e' p t.pc t.rider s.store t.store s.riders s.trips (s.infos e') (s.cars e')
                (s.lifts e') ys actor'' other others h'.on_list.loose h'.floors k,
          )
    ]

pub WholeReach-SystemInv :
    {origin : ℕ → ℤ} {s : System}
    → ((p : ℕ) → InBuilding (origin p))
    → WholeReach origin s
    → SystemInv s
WholeReach-SystemInv {origin} b System.start = initial-SystemInv origin b
WholeReach-SystemInv b (System.later r (System.lift e {l} lt done)) =
    lift-SystemInv e l lt done (WholeReach-SystemInv b r)
WholeReach-SystemInv b (System.later r (System.trip p goal {t} lt g done)) =
    trip-SystemInv p goal t g done (WholeReach-SystemInv b r)

-- The section waits or goes on: no check ends the program and no list operation fails.
abbrev pub GoesOn : {A : Type 0} → Outcome A → Type 0
GoesOn o = Fine (λ _. Unit {0}) o

Fine-GoesOn : {A : Type 0} (P : A → Type 0) (o : Outcome A) → Fine P o → GoesOn o
Fine-GoesOn P (moved a) f = tt
Fine-GoesOn P blocked f = tt
Fine-GoesOn P (System.violates v) f = f
Fine-GoesOn P System.fails f = f

-- No elevator's section ends in a VIOLATION.
pub elevator-GoesOn :
    (origin : ℕ → ℤ) (s : System) (e : ℕ)
    → ((p : ℕ) → InBuilding (origin p))
    → WholeReach origin s
    → e < elevators
    → GoesOn (lift_step e s)
elevator-GoesOn origin s e b r lt =
    let (xs, actor, h) = WholeReach-SystemInv b r e lt in
    Fine-GoesOn _ (lift_step e s)
      (Lift-Fine e s.store s.riders s.trips xs actor (s.infos e) (s.cars e) (s.lifts e) h)

-- No passenger's section, taken whole, ends in a VIOLATION.
pub passenger-GoesOn :
    (origin : ℕ → ℤ) (s : System) (p : ℕ) (goal : ℤ)
    → ((q : ℕ) → InBuilding (origin q))
    → WholeReach origin s
    → InBuilding goal
    → GoesOn (whole_step p goal s)
passenger-GoesOn origin s p goal b r g =
    let (xs, actor, h) = WholeReach-SystemInv b r (elevator_of p) (elevator_of-lt p) in
    Fine-GoesOn _ (whole_step p goal s) (
      Trip-Fine p (s.infos (elevator_of p)) (s.cars (elevator_of p)) (s.lifts (elevator_of p))
        s.store s.riders s.trips xs actor h goal g (s.trips p) refl)

inside_after-le :
    (e : ℕ) (floor : ℤ) (n : ℕ) (rider : Rider) (pc : PassengerPc)
    → Person e floor n rider pc
    → n ≤ max_capacity
    → inside_after pc n ≤ max_capacity
inside_after-le e floor n rider System.boarding h few = omega (arith, h.1)
inside_after-le e floor n rider System.leaving h few = omega arith
inside_after-le e floor n rider pc h few = few

inside_count-le :
    (e : ℕ) (floor : ℤ) (n : ℕ) (riders : ℕ → Rider) (trips : ℕ → PassengerPc) (actor : Option ℕ)
    (ready given : Bool) (lift : ElevatorPc)
    → Turn e ready given lift trips actor
    → People e floor n riders trips
    → n ≤ max_capacity
    → inside_count trips actor n ≤ max_capacity
inside_count-le e floor n riders trips none ready given lift t people few = few
inside_count-le e floor n riders trips (some q) ready given lift t people few =
    inside_after-le e floor n (riders q) (trips q) (people q (ground (arith, t.acting q))) few

-- In every state that whole sections reach, with passengers who start in the building, an elevator
-- is on a floor of the building and has no more passengers than its capacity, and not fewer
-- than none, by both records.
pub capacity_kept :
    (origin : ℕ → ℤ) (s : System) (e : ℕ)
    → ((p : ℕ) → InBuilding (origin p))
    → WholeReach origin s
    → e < elevators
    → InBuilding (s.cars e).floor
      × (pos 0 ≤ℤ (s.infos e).passenger_count)
      × ((s.infos e).passenger_count ≤ℤ pos max_capacity)
      × (pos 0 ≤ℤ (s.cars e).passengers)
      × ((s.cars e).passengers ≤ℤ pos max_capacity)
capacity_kept origin s e b r lt =
    let (xs, actor, h) = WholeReach-SystemInv b r e lt in
    let count =
      inside_count-le e (s.cars e).floor (length xs) s.riders s.trips actor
        (s.infos e).is_elevator_ready (s.infos e).is_passenger_ready (s.lifts e) h.turn h.people
        h.on_list.few in
    let here = h.cabin.here in
    let listed = h.on_list.counted in
    let few = h.on_list.few in
    let inside = h.inside in
    (here, ground arith, ground arith, ground arith, rw inside (omega (arith, count)))

-- In every state that whole sections reach, with passengers who start in the building, two
-- passengers of an elevator who are both between claiming the open door and giving it back are
-- the same passenger, and the door is open.
pub turns_exclude :
    (origin : ℕ → ℤ) (s : System) (p q : ℕ)
    → ((p : ℕ) → InBuilding (origin p))
    → WholeReach origin s
    → elevator_of p ≡ elevator_of q
    → busy (s.trips p) ≡ true
    → busy (s.trips q) ≡ true
    → (p ≡ q) × ((s.cars (elevator_of p)).is_open ≡ true)
turns_exclude origin s p q b r same on on' =
    let (xs, actor, h) = WholeReach-SystemInv b r (elevator_of p) (elevator_of-lt p) in
    elim (Bool-cases (p == q)) [
      | inl equal ↦ (
        ground arith,
        (held (s.infos (elevator_of p)) (s.cars (elevator_of p)) (s.lifts (elevator_of p))
            (taken p (length xs) h.turn on).0 h.cabin).0,
      )
      | inr apart ↦
          let off : busy (s.trips q) ≡ false = only-actor p q s.trips h.turn on apart (sym same) in
          cc (on', off)
    ]

-- In every state that whole sections reach, with passengers who start in the building: when
-- `passenger_request` has returned, the passenger is on the floor that she asked for, and her
-- link to a further rider is NULL.
pub delivered :
    (origin : ℕ → ℤ) (s : System) (p : ℕ)
    → ((p : ℕ) → InBuilding (origin p))
    → WholeReach origin s
    → s.trips p ≡ returned
    → ((s.riders p).at_floor ≡ (s.riders p).to_floor) × ((s.store p).next ≡ none)
delivered origin s p b r at =
    let (xs, actor, h) = WholeReach-SystemInv b r (elevator_of p) (elevator_of-lt p) in
    (rw at at (h.people p refl), h.on_list.loose p (rw at refl))
