-- ===== src/Elevator/System/Progress/Together.antt =====
-- The thread of one elevator and that of one passenger, with no section of another in between.
use cs361_projects.Prelude.{ℕ, ◌<◌, ◌≡◌, refl, ap, ◌∙◌, true, arith}
use cs361_projects.Prelude.Int.{ℤ, pos}
use cs361_projects.Prelude.Links.{update_self}
use cs361_projects.Elevator.Config.{elevators, passengers}
use cs361_projects.Elevator.Riding
use cs361_projects.Elevator.Riding.{Store, Run}
use cs361_projects.Elevator.Enforcer
use cs361_projects.Elevator.Enforcer.{Checked, passenger_exit}
use cs361_projects.Elevator.Scheduler.{elevator_of, may_leave, claim_to_leave, leave}
use cs361_projects.Elevator.Scheduler.Direction.{InBuilding}
use cs361_projects.Elevator.System
use cs361_projects.Elevator.System.{
  System, Outcome, Lift, Trip, PassengerPc, WholeReach, moved, checked, listed, lift_section,
  lift_step, whole_section, whole_step, put_lift, put_trip, riding, exit_first, exit_second,
  exit_update, leaving, returned, fuel,
}
use cs361_projects.Elevator.System.Safety.{GoesOn, passenger-GoesOn}
use cs361_projects.Elevator.System.Progress.Alone.{Solo, here, go_on}

-- What comes of `s` by sections of elevator `e` and passenger `p`.
pub data Pair (e p : ℕ) (s : System) : System → Type 0 where
  start : Pair e p s s
  lift :
      {t : System} (l : Lift)
      → Pair e p s t
      → e < elevators
      → lift_step e t ≡ moved l
      → Pair e p s (put_lift t e l)
  trip :
      {t : System} (goal : ℤ) (r : Trip)
      → Pair e p s t
      → p < passengers
      → InBuilding goal
      → whole_step p goal t ≡ moved r
      → Pair e p s (put_trip t p r)

pub WholeReach-Pair :
    {origin : ℕ → ℤ} (e p : ℕ) {s t : System}
    → WholeReach origin s
    → Pair e p s t
    → WholeReach origin t
WholeReach-Pair e p r start = r
WholeReach-Pair e p r (lift l k lt done) =
    System.later (WholeReach-Pair e p r k) (System.lift e lt done)
WholeReach-Pair e p r (trip goal t k lt g done) =
    System.later (WholeReach-Pair e p r k) (System.trip p goal lt g done)

-- The elevator of a system stands as `l` says.
pub record Matches (e : ℕ) (store : Store) (t : System) (l : Lift) : Type 0 where
  pub info_of : t.infos e ≡ l.info
  pub car_of : t.cars e ≡ l.car
  pub pc_of : t.lifts e ≡ l.pc
  pub store_of : t.store ≡ store

-- Where the elevator's thread alone has come to.
pub record Rode (e p : ℕ) (store : Store) (s t u : System) (l : Lift) : Type 0 where
  pub pair : Pair e p s u
  pub matches : Matches e store u l
  pub same_trips : u.trips ≡ t.trips
  pub same_riders : u.riders ≡ t.riders

put_lift-Matches :
    (e : ℕ) (store : Store) (t : System) (l : Lift)
    → t.store ≡ store
    → Matches e store (put_lift t e l) l
put_lift-Matches e store t l h = record {
  info_of = update_self t.infos e l.info;
  car_of = update_self t.cars e l.car;
  pc_of = update_self t.lifts e l.pc;
  store_of = h;
}

pub ride :
    (e p : ℕ) (store : Store) (s t : System) {l l' : Lift}
    → e < elevators
    → Pair e p s t
    → Matches e store t l
    → Solo e store l l'
    → (u : System) × Rode e p store s t u l'
ride e p store s t lt k m here =
    (t, record { pair = k; matches = m; same_trips = refl; same_riders = refl })
ride e p store s t lt k m (go_on next done rest) =
    let step : lift_step e t ≡ moved next = rw (m.info_of, m.car_of, m.pc_of, m.store_of) done in
    let (u, r) =
      ride e p store s (put_lift t e next) lt (lift next k lt step)
        (put_lift-Matches e store t next m.store_of) rest in
    (
      u,
      record {
        pair = r.pair;
        matches = r.matches;
        same_trips = r.same_trips;
        same_riders = r.same_riders;
      },
    )

checked-moved :
    {A : Type 0} (c : Checked (Unit {0})) (a : A) → GoesOn (checked c a) → checked c a ≡ moved a
checked-moved (Enforcer.ok _) a g = refl
checked-moved (Enforcer.violation v) a g = absurd g

listed-moved :
    {A B : Type 0} (o : Run A) (f : A → B)
    → GoesOn (listed o f)
    → (a : A) × (listed o f ≡ moved (f a))
listed-moved (Riding.ok a) f g = (a, refl)
listed-moved Riding.null_deref f g = absurd g
listed-moved Riding.assert_failed f g = absurd g
listed-moved Riding.out_of_fuel f g = absurd g

-- The passenger at a place of her thread, with the floor that she has asked for.
pub record At (e p : ℕ) (s t : System) (pc : PassengerPc) (floor : ℤ) : Type 0 where
  pub pair : Pair e p s t
  pub place : t.trips p ≡ pc
  pub asks : (t.riders p).to_floor ≡ floor

-- What the passenger's thread works on, at another place.
abbrev stands : ℕ → System → PassengerPc → Trip
stands p t pc = record {
  info = t.infos (elevator_of p);
  store = t.store;
  car = t.cars (elevator_of p);
  rider = t.riders p;
  pc = pc;
}

module _ (origin : ℕ → ℤ) (b : (q : ℕ) → InBuilding (origin q)) (e p : ℕ) (s : System)
    (r : WholeReach origin s) (lt : p < passengers) where
  any_goal : InBuilding (pos 0)
  any_goal = omega arith

  walk :
      {t : System} {pc : PassengerPc} {floor : ℤ} (next : Trip)
      → At e p s t pc floor
      → whole_step p (pos 0) t ≡ moved next
      → next.rider.to_floor ≡ (t.riders p).to_floor
      → (u : System) × At e p s u next.pc floor
  walk {t} next a done same = (
    put_trip t p next,
    record {
      pair = trip (pos 0) next a.pair lt any_goal done;
      place = update_self t.trips p next.pc;
      asks =
          ap (λ (i : System.Rider). i.to_floor) (update_self t.riders p next.rider) ∙ same ∙ a.asks;
    },
  )

  goes :
      (t : System) {pc : PassengerPc} {floor : ℤ}
      → At e p s t pc floor
      → GoesOn (whole_step p (pos 0) t)
  goes t a = passenger-GoesOn origin t p (pos 0) b (WholeReach-Pair e p r a.pair) any_goal

  claim :
      {t : System} {floor : ℤ}
      → At e p s t riding floor
      → may_leave (t.infos (elevator_of p)) (t.riders p).to_floor ≡ true
      → (u : System) × At e p s u exit_first floor
  unfolding whole_section
  claim {t} a may =
      walk (record (stands p t exit_first) { info = claim_to_leave (t.infos (elevator_of p)) }) a
        (rw (a.place, may)) refl

  first_check :
      {t : System} {floor : ℤ}
      → At e p s t exit_first floor
      → (u : System) × At e p s u exit_second floor
  unfolding whole_section
  first_check {t} a =
      walk (stands p t exit_second) a
        (rw a.place (checked-moved _ (stands p t exit_second) (rw a.place at (goes t a)))) refl

  second_check :
      {t : System} {floor : ℤ}
      → At e p s t exit_second floor
      → (u : System) × At e p s u exit_update floor
  unfolding whole_section
  second_check {t} a =
      walk (stands p t exit_update) a
        (rw a.place (checked-moved _ (stands p t exit_update) (rw a.place at (goes t a)))) refl

  gets_off :
      {t : System} {floor : ℤ}
      → At e p s t exit_update floor
      → (u : System) × At e p s u leaving floor
  unfolding whole_section passenger_exit
  gets_off {t} a =
      let r = passenger_exit (t.cars (elevator_of p)) (t.riders p) in
      walk (record (stands p t leaving) { car = r.0; rider = r.1 }) a (rw a.place) refl

  lets_go :
      {t : System} {floor : ℤ} → At e p s t leaving floor → (u : System) × At e p s u returned floor
  unfolding whole_section
  lets_go {t} a =
      let (q, done) =
        listed-moved (leave fuel p (t.infos (elevator_of p)) t.store)
          (λ q. record (stands p t returned) { info = q.0; store = q.1 })
          (rw a.place at (goes t a)) in
      walk (record (stands p t returned) { info = q.0; store = q.1 }) a (rw a.place done) refl

  -- A passenger who may leave does, whatever the rest of her thread meets.
  pub leaves :
      {t : System} {floor : ℤ}
      → At e p s t riding floor
      → may_leave (t.infos (elevator_of p)) (t.riders p).to_floor ≡ true
      → (u : System) × At e p s u returned floor
  leaves a may = lets_go (gets_off (second_check (first_check (claim a may).1).1).1).1
