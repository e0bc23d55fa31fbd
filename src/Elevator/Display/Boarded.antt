-- ===== src/Elevator/Display/Boarded.antt =====
-- Who is inside an elevator by the record of the enforcement system.
use cs361_projects.Prelude.{
  ℕ, ◌≡◌, refl, subst, Bool, true, false, arith, ◌==◌, ==_iff, Bool-cases, inl, inr,
}
use cs361_projects.Prelude.Int.{ℤ, pos}
use cs361_projects.Prelude.Links.{update_self}
use cs361_projects.Elevator.Riding.{Store}
use cs361_projects.Elevator.Riding.Goals.{Yields-any}
use cs361_projects.Elevator.Enforcer.{
  Car, Rider, is_entered, passenger_enter, passenger_exit, begin_trip, end_trip, start_passenger,
}
use cs361_projects.Elevator.Scheduler.{
  ElevatorInfo, elevator_of, may_board, may_leave, board, leave,
}
use cs361_projects.Elevator.System
use cs361_projects.Elevator.System.{
  System, Trip, PassengerPc, WholeReach, moved, whole_section, whole_step, put_trip, fuel,
}
use cs361_projects.Elevator.System.Progress.Asked.{
  Comes, Comes-checked, Comes-when, Comes-listed, Comes-moved, now,
}

-- From `passenger_enter` to `passenger_exit`.
abbrev pub within : PassengerPc → Bool
within System.boarding = true
within System.riding = true
within System.exit_first = true
within System.exit_second = true
within System.exit_update = true
within _ = false

pub record Boarded (p : ℕ) (pc : PassengerPc) (rider : Rider) : Type 0 where
  pub entered : is_entered rider.state ≡ within pc
  pub place : within pc ≡ true → rider.in_elevator ≡ pos (elevator_of p)

module _ (p : ℕ) (goal : ℤ) (info : ElevatorInfo) (store : Store) (car : Car) (rider : Rider) where
  abbrev Good : Trip → Type 0
  Good t = Boarded p t.pc t.rider

  abbrev at_place : PassengerPc → Trip
  at_place pc = now p goal info store car rider pc

  whole_section-Boarded :
      (pc : PassengerPc) → Boarded p pc rider → Comes Good (whole_section p goal (at_place pc))
  unfolding whole_section passenger_enter passenger_exit begin_trip end_trip
  whole_section-Boarded System.resting b = ground arith
  whole_section-Boarded System.calling b =
      Comes-when Good (System.has_room info) _ (record { entered = b.entered; place = λ on. cc on })
  whole_section-Boarded System.hailing b =
      Comes-when Good (may_board info rider.from_floor) _
        (record { entered = b.entered; place = λ on. cc on })
  whole_section-Boarded System.enter_first b =
      Comes-checked Good _ _ (record { entered = b.entered; place = λ on. cc on })
  whole_section-Boarded System.enter_second b =
      Comes-checked Good _ _ (record { entered = b.entered; place = λ on. cc on })
  whole_section-Boarded System.enter_update b = record { entered = refl; place = λ on. refl }
  whole_section-Boarded System.boarding b =
      Comes-listed (λ _. Unit {0}) Good (board fuel p info store) _
        (Yields-any (board fuel p info store))
        (λ r _. record { entered = b.entered; place = b.place })
  whole_section-Boarded System.riding b =
      Comes-when Good (may_leave info rider.to_floor) _
        (record { entered = b.entered; place = b.place })
  whole_section-Boarded System.exit_first b =
      Comes-checked Good _ _ (record { entered = b.entered; place = b.place })
  whole_section-Boarded System.exit_second b =
      Comes-checked Good _ _ (record { entered = b.entered; place = b.place })
  whole_section-Boarded System.exit_update b = record { entered = refl; place = λ on. cc on }
  whole_section-Boarded System.leaving b =
      Comes-listed (λ _. Unit {0}) Good (leave fuel p info store) _
        (Yields-any (leave fuel p info store))
        (λ r _. record { entered = b.entered; place = λ on. cc on })
  whole_section-Boarded System.returned b =
      Comes-checked Good _ _ (record { entered = b.entered; place = λ on. cc on })

trip-Boarded :
    (s : System) (q p : ℕ) (goal : ℤ) (t : Trip)
    → whole_step q goal s ≡ moved t
    → Boarded q (s.trips q) (s.riders q)
    → Boarded p (s.trips p) (s.riders p)
    → Boarded p ((put_trip s q t).trips p) ((put_trip s q t).riders p)
trip-Boarded s q p goal t done own b = elim (Bool-cases (q == p)) [
  | inl self ↦
      subst (λ r. Boarded r ((put_trip s q t).trips r) ((put_trip s q t).riders r))
        ((==_iff q p).0 self)
        (rw (update_self s.trips q t.pc, update_self s.riders q t.rider)
          (Comes-moved _ (whole_step q goal s)
            (whole_section-Boarded q goal (s.infos (elevator_of q)) s.store (s.cars (elevator_of q))
              (s.riders q) (s.trips q) own)
            done))
  | inr other ↦ rw other b
]

-- In every state that whole sections reach.
pub WholeReach-Boarded :
    {origin : ℕ → ℤ} {s : System} (p : ℕ) → WholeReach origin s → Boarded p (s.trips p) (s.riders p)
unfolding start_passenger
WholeReach-Boarded p System.start = record { entered = refl; place = λ on. cc on }
WholeReach-Boarded p (System.later r (System.lift e lt done)) = WholeReach-Boarded p r
WholeReach-Boarded p (System.later {s} r (System.trip q goal {t} lt g done)) =
    trip-Boarded s q p goal t done (WholeReach-Boarded q r) (WholeReach-Boarded p r)
