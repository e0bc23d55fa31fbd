-- ===== src/Elevator/Threads/Pairs.antt =====
-- The passengers on board can get to their floors, by sections of two threads.
use cs361_projects.Prelude.{ℕ, ◌<◌, ◌≡◌, inl, inr, Bool, true, false, arith, Bool-cases}
use cs361_projects.Prelude.Int.{ℤ}
use cs361_projects.Elevator.Config.{elevators, passengers}
use cs361_projects.Elevator.Scheduler.{ElevatorInfo, elevator_of, may_run, may_leave}
use cs361_projects.Elevator.Scheduler.Direction.{InBuilding}
use cs361_projects.Elevator.System.{System, Lift, Trip, lift_step, moved, idle, riding, returned}
use cs361_projects.Elevator.System.Invariant.{Turn, offered, is_holding}
use cs361_projects.Elevator.System.Safety.{WholeReach-SystemInv}
use cs361_projects.Elevator.System.Progress.Together
use cs361_projects.Elevator.System.Progress.Deliver.{rider-Delivered}
use cs361_projects.Elevator.Threads.{Threads, trip_step, after_lift, after_trip, Reach, Undisturbed}
use cs361_projects.Elevator.Threads.Whole.{Clean, Undisturbed-Clean}
use cs361_projects.Elevator.Threads.Embedding.{threads, whole-steps}

-- What comes of `s` by sections of elevator `e` and passenger `p`.
pub data Pair (e p : ℕ) (s : Threads) : Threads → Type 0 where
  start : Pair e p s s
  lift :
      {t : Threads} (l : Lift)
      → Pair e p s t
      → e < elevators
      → lift_step e t.system ≡ moved l
      → Pair e p s (after_lift t e l)
  trip :
      {t : Threads} (goal : ℤ) (r : Trip) (b : Bool)
      → Pair e p s t
      → p < passengers
      → InBuilding goal
      → trip_step p goal t ≡ moved (r, b)
      → Pair e p s (after_trip t p r b)

whole-Pair :
    (e p : ℕ) (passed : ℕ → Bool) (s t : System)
    → passed p ≡ false
    → Together.Pair e p s t
    → Pair e p (threads s passed) (threads t passed)
whole-Pair e p passed s t off Together.start = start
whole-Pair e p passed s _ off (Together.lift l k lt done) =
    lift l (whole-Pair e p passed s _ off k) lt done
whole-Pair e p passed s _ off (Together.trip {t = u} goal r k lt g done) =
    let before = whole-Pair e p passed s u off k in
    whole-steps passed p off (Pair e p (threads s passed)) u goal r done
      (λ z b step. trip goal z b before lt g step) (λ z b c step. trip goal z b c lt g step)

-- Somebody rides in elevator `e` of the one state, and has been brought to her floor in the other.
pub record Brought (e : ℕ) (s t : Threads) : Type 0 where
  pub passenger : ℕ
  pub hers : elevator_of passenger ≡ e
  pub rode : s.system.trips passenger ≡ riding
  pub pair : Pair e passenger s t
  pub back : t.system.trips passenger ≡ returned
  pub on_floor : (t.system.riders passenger).at_floor ≡ (s.system.riders passenger).to_floor

may_leave-ready :
    (info : ElevatorInfo) (floor : ℤ) → may_leave info floor ≡ true → info.is_elevator_ready ≡ true
unfolding may_leave
may_leave-ready info floor may = ground arith

-- Nobody who rides has passed her test while the elevator is between two rounds.
none_passed :
    {origin : ℕ → ℤ} (s : Threads) (p : ℕ)
    → ((q : ℕ) → InBuilding (origin q))
    → Clean origin s
    → s.system.lifts (elevator_of p) ≡ idle
    → s.system.trips p ≡ riding
    → s.passed p ≡ false
none_passed s p b c at on = elim (Bool-cases (s.passed p)) [
  | inr off ↦ off
  | inl passed ↦
      let e = elevator_of p in
      let may : may_leave (s.system.infos e) (s.system.riders p).to_floor ≡ true =
        rw on at (c.still p passed) in
      let ready = may_leave-ready (s.system.infos e) (s.system.riders p).to_floor may in
      let (xs, actor, h) = WholeReach-SystemInv b c.whole e (omega arith) in
      let turn : Turn e true (s.system.infos e).is_passenger_ready (s.system.lifts e) s.system.trips
          actor =
        rw ready at h.turn in
      let holding : is_holding (s.system.lifts e) ≡ true = (offered turn).0 in
      absurd (cc (rw at at holding))
]

-- Behind every order in which nothing of the same elevator comes between a passenger's test of
-- `is_elevator_ready` and her reset of it, with passengers who start in the building: when an elevator is
-- between two rounds, has had the three requests that it waits for, and somebody rides in it, then
-- sections of its thread and of the thread of one of its riders, and of no other, bring this rider out of
-- `passenger_request` and to the floor that she had asked for.
pub rider-Brought :
    (origin : ℕ → ℤ) (s : Threads) (e q : ℕ)
    → ((p : ℕ) → InBuilding (origin p))
    → (r : Reach origin s) → Undisturbed r
    → e < elevators
    → s.system.lifts e ≡ idle
    → may_run (s.system.infos e) ≡ true
    → s.system.trips q ≡ riding
    → elevator_of q ≡ e
    → (t : Threads) × Brought e s t
rider-Brought origin s e q b r u lt at runs on hers =
    let c = Undisturbed-Clean r u in
    let (t, d) = rider-Delivered origin s.system e q b c.whole lt at runs on hers in
    let here : s.system.lifts (elevator_of d.passenger) ≡ idle = rw d.hers at in
    (
      threads t s.passed,
      record {
        passenger = d.passenger;
        hers = d.hers;
        rode = d.rode;
        pair =
            whole-Pair e d.passenger s.passed s.system t (none_passed s d.passenger b c here d.rode)
              d.pair;
        back = d.back;
        on_floor = d.on_floor;
      },
    )
