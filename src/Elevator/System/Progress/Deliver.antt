-- ===== src/Elevator/System/Progress/Deliver.antt =====
-- The passengers on board can get to their floors.
use cs361_projects.Prelude.{
  and_parts, ℕ, ◌<◌, ◌≡◌, refl, ap, sym, ◌∙◌, inl, inr, Bool, true, false, ◌&&◌, Option, List, [],
  ◌∷◌, arith, ◌==◌, ==_iff,
}
use cs361_projects.Prelude.Int.{ℤ}
use cs361_projects.Prelude.Links.{has}
use cs361_projects.Elevator.Config.{elevators, passengers}
use cs361_projects.Elevator.Riding.{Store}
use cs361_projects.Elevator.Scheduler.{ElevatorInfo, elevator_of, may_run, may_leave}
use cs361_projects.Elevator.Scheduler.Target.{Among, goals_of, distance}
use cs361_projects.Elevator.Scheduler.Direction.{InBuilding}
use cs361_projects.Elevator.System
use cs361_projects.Elevator.System.{
  System, Lift, Rider, PassengerPc, WholeReach, idle, riding, returned,
}
use cs361_projects.Elevator.System.Invariant.{
  CarInv, busy, aboard, nobody, goals-InBuilding, waiting-InBuilding,
}
use cs361_projects.Elevator.System.Safety.{WholeReach-SystemInv, delivered}
use cs361_projects.Elevator.System.Progress.Alone.{Ready, serve}
use cs361_projects.Elevator.System.Progress.Asked.{WholeReach-Asked}
use cs361_projects.Elevator.System.Progress.Together.{
  Pair, start, WholeReach-Pair, Rode, ride, leaves,
}

-- Who is on board and does not have the turn rides.
just_rides : (pc : PassengerPc) → aboard pc ≡ true → busy pc ≡ false → pc ≡ riding
just_rides System.riding on free = refl
just_rides pc on free = cc

-- The floor is that of somebody on the list.
Among-goals_of :
    (store : Store) (w : ℤ) (xs : List ℕ)
    → Among w (goals_of store xs)
    → (p : ℕ) × (has p xs ≡ true) × ((store p).to_floor ≡ w)
Among-goals_of store w [] m = absurd m
Among-goals_of store w (x ∷ xs) (inl e) = (x, ground arith, sym e)
Among-goals_of store w (x ∷ xs) (inr m) =
    let (p, on, goal) = Among-goals_of store w xs m in (p, ground arith, goal)

may_leave-here :
    (info : ElevatorInfo) (floor : ℤ)
    → info.is_elevator_ready ≡ true
    → info.elevator_floor ≡ floor
    → may_leave info floor ≡ true
unfolding may_leave
may_leave-here info floor ready here = ground arith

-- Between two rounds an elevator in service with riders is as `Alone` wants it.
CarInv-Ready :
    (s : System) (e : ℕ) (xs : List ℕ) (actor : Option ℕ)
    → CarInv e (s.infos e) (s.cars e) idle s.store s.riders s.trips xs actor
    → may_run (s.infos e) ≡ true
    → Ready e s.store xs (s.infos e) (s.cars e)
CarInv-Ready s e xs actor h runs = record {
  chain = h.on_list.chain;
  few = h.on_list.few;
  no_next = h.cabin.no_next;
  direction = h.cabin.direction;
  on_floor = h.cabin.here;
  agree = h.cabin.place;
  shut = h.cabin.door;
  inside = rw (nobody h.turn refl) at h.inside;
  runs = runs;
}

-- Somebody rides in elevator `e` of the one state, and has been brought to her floor in the other.
pub record Delivered (e : ℕ) (s t : System) : Type 0 where
  pub passenger : ℕ
  pub hers : elevator_of passenger ≡ e
  pub rode : s.trips passenger ≡ riding
  pub pair : Pair e passenger s t
  pub back : t.trips passenger ≡ returned
  pub on_floor : (t.riders passenger).at_floor ≡ (s.riders passenger).to_floor

and_left : (x y : Bool) → y ≡ true → (x && y) ≡ false → x ≡ false
and_left x y h k = ground arith

-- Whose floor it is rides, with nobody in the turn.
rider_of :
    (s : System) (e : ℕ) (xs : List ℕ) (actor : Option ℕ)
    → CarInv e (s.infos e) (s.cars e) idle s.store s.riders s.trips xs actor
    → (p : ℕ) → has p xs ≡ true
    → (s.trips p ≡ riding) × (elevator_of p ≡ e)
rider_of s e xs actor h p on =
    let both : (aboard (s.trips p) && (elevator_of p == e)) ≡ true =
      sym (h.on_list.members p) ∙ on in
    let none_acts : (busy (s.trips p) && (elevator_of p == e)) ≡ false =
      h.turn.acting p ∙ rw (nobody h.turn refl) in
    let (boarded, here) = and_parts (aboard (s.trips p)) (elevator_of p == e) both in
    (
      just_rides (s.trips p) boarded
          (and_left (busy (s.trips p)) (elevator_of p == e) here none_acts),
      (==_iff (elevator_of p) e).0 here,
    )

module _ (origin : ℕ → ℤ) (b : (p : ℕ) → InBuilding (origin p)) (s : System) (e : ℕ)
    (r : WholeReach origin s) (lt : e < elevators) (at : s.lifts e ≡ idle) where
  -- The thread of the elevator has come to the goal of passenger `p`.
  let_out :
      (p : ℕ) (l : Lift) (t : System) (floor : ℤ)
      → s.trips p ≡ riding
      → elevator_of p ≡ e
      → (s.store p).to_floor ≡ floor
      → l.info.is_elevator_ready ≡ true
      → l.info.elevator_floor ≡ floor
      → Rode e p s.store s s t l
      → (u : System) × Delivered e s u
  let_out p l t floor on hers goal ready here w =
      let (below, asks) = WholeReach-Asked p r (rw on refl) in
      let (u, a) =
        leaves origin b e p s r below {t = t} {floor = (s.riders p).to_floor}
          (record {
            pair = w.pair;
            place = ap (λ (f : ℕ → PassengerPc). f p) w.same_trips ∙ on;
            asks = ap (λ (f : ℕ → Rider). (f p).to_floor) w.same_riders;
          })
          (may_leave-here (t.infos (elevator_of p)) (t.riders p).to_floor
            (ap (λ i. (t.infos i).is_elevator_ready) hers
              ∙ ap (λ (i : ElevatorInfo). i.is_elevator_ready) w.matches.info_of
              ∙ ready)
            (ap (λ i. (t.infos i).elevator_floor) hers
              ∙ ap (λ (i : ElevatorInfo). i.elevator_floor) w.matches.info_of
              ∙ here
              ∙ sym goal
              ∙ asks
              ∙ sym (ap (λ (f : ℕ → Rider). (f p).to_floor) w.same_riders))) in
      let back = delivered origin u p b (WholeReach-Pair e p r a.pair) a.place in
      (
        u,
        record {
          passenger = p;
          hers = hers;
          rode = on;
          pair = a.pair;
          back = a.place;
          on_floor = back.0 ∙ a.asks;
        },
      )

  deliver :
      (x : ℕ) (xs : List ℕ) (actor : Option ℕ)
      → CarInv e (s.infos e) (s.cars e) idle s.store s.riders s.trips (x ∷ xs) actor
      → may_run (s.infos e) ≡ true
      → (t : System) × Delivered e s t
  deliver x xs actor h runs =
      let (l, d) =
        serve e s.store x xs (distance (s.cars e).floor (s.store x).to_floor) (s.store x).to_floor
          (s.infos e) (s.cars e) (CarInv-Ready s e (x ∷ xs) actor h runs)
          (waiting-InBuilding e s.store (λ p. (h.floors.stored p).0) passengers 0)
          (goals-InBuilding s.store (λ p. (h.floors.stored p).1) (x ∷ xs)) (inl refl)
          (omega arith) in
      let (p, on, goal) = Among-goals_of s.store d.floor (x ∷ xs) d.goal in
      let (rides, hers) = rider_of s e (x ∷ xs) actor h p on in
      let (t, w) =
        ride e p s.store s s lt start
          (record { info_of = refl; car_of = refl; pc_of = at; store_of = refl }) d.solo in
      let_out p l t d.floor rides hers goal d.ready d.at_floor w

  with_rider :
      (q : ℕ) (xs : List ℕ) (actor : Option ℕ)
      → CarInv e (s.infos e) (s.cars e) idle s.store s.riders s.trips xs actor
      → may_run (s.infos e) ≡ true
      → has q xs ≡ true
      → (t : System) × Delivered e s t
  with_rider q [] actor h runs on = cc on
  with_rider q (x ∷ xs) actor h runs on = deliver x xs actor h runs

-- In every state that whole sections reach, with passengers who start in the building: when an elevator is
-- between two rounds, has had the three requests that it waits for, and somebody rides in it, then
-- sections of its thread and of the thread of one of its riders, and of no other, bring this rider
-- out of `passenger_request` and to the floor that she had asked for.
pub rider-Delivered :
    (origin : ℕ → ℤ) (s : System) (e q : ℕ)
    → ((p : ℕ) → InBuilding (origin p))
    → WholeReach origin s
    → e < elevators
    → s.lifts e ≡ idle
    → may_run (s.infos e) ≡ true
    → s.trips q ≡ riding
    → elevator_of q ≡ e
    → (t : System) × Delivered e s t
rider-Delivered origin s e q b r lt at runs on hers =
    let (xs, actor, h) = WholeReach-SystemInv b r e lt in
    with_rider origin b s e r lt at q xs actor (rw at at h) runs
      (h.on_list.members q ∙ rw on ((==_iff (elevator_of q) e).1 hers))
