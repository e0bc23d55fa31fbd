-- ===== src/Elevator/System/Progress/Asked.antt =====
-- What hw7.c keeps of the floor that a passenger has asked for, from her request to its end.
use cs361_projects.Prelude.{
  ℕ, ◌<◌, ◌≡◌, refl, sym, subst, ◌∙◌, Bool, true, false, arith, ◌==◌, Bool-cases, inl, inr,
}
use cs361_projects.Prelude.Int.{ℤ}
use cs361_projects.Prelude.Links.{update, update_self}
use cs361_projects.Elevator.Config.{passengers}
use cs361_projects.Elevator.Riding
use cs361_projects.Elevator.Riding.{Store, Run, add_to_list, remove_from_list}
use cs361_projects.Elevator.Riding.Goals.{
  Yields, Yields-bind, SameGoals, add_to_list-SameGoals, remove_from_list-SameGoals,
}
use cs361_projects.Elevator.Scheduler.{
  ElevatorInfo, submit_passenger, board, leave, elevator_of, may_board, may_leave,
}
use cs361_projects.Elevator.Enforcer
use cs361_projects.Elevator.Enforcer.{Car, Rider, Checked, passenger_enter, passenger_exit}
use cs361_projects.Elevator.System
use cs361_projects.Elevator.System.{
  System, Outcome, Trip, PassengerPc, WholeStep, WholeReach, initial, moved, whole_section,
  whole_step, put_trip, checked, when, listed, fuel,
}

-- Between the request and the end of it.
abbrev pub submitted : PassengerPc → Bool
submitted System.resting = false
submitted System.calling = false
submitted _ = true

-- Both records of the passenger name the same floor.
abbrev pub Asked : ℕ → System → Type 0
Asked p s =
    submitted (s.trips p) ≡ true → (p < passengers) × ((s.store p).to_floor ≡ (s.riders p).to_floor)

board-SameGoals :
    (k p : ℕ) (info : ElevatorInfo) (s : Store) → Yields (λ r. SameGoals s r.1) (board k p info s)
unfolding board
board-SameGoals k p info s =
    let marked = update s p (record (s p) { status = 1 }) in
    Yields-bind (λ r. SameGoals marked r.1) (λ r. SameGoals s r.1)
      (add_to_list k info.riding p marked) _ (add_to_list-SameGoals k p info.riding marked)
      (λ r same b. same b ∙ ground arith)

leave-SameGoals :
    (k p : ℕ) (info : ElevatorInfo) (s : Store) → Yields (λ r. SameGoals s r.1) (leave k p info s)
unfolding leave
leave-SameGoals k p info s =
    Yields-bind (λ r. SameGoals s r.1) (λ r. SameGoals s r.1) (remove_from_list k info.riding p s) _
      (remove_from_list-SameGoals k p info.riding s) (λ r same b. same b)

-- What a section of passenger `p` makes of the floors asked for.
record Kept (p : ℕ) (t t' : Trip) : Type 0 where
  others : (q : ℕ) → (q == p) ≡ false → (t'.store q).to_floor ≡ (t.store q).to_floor
  own :
      ((submitted t.pc ≡ true) → (t.store p).to_floor ≡ t.rider.to_floor)
      → submitted t'.pc ≡ true
      → (t'.store p).to_floor ≡ t'.rider.to_floor

abbrev pub Comes : {A : Type 0} → (A → Type 0) → Outcome A → Type 0
Comes P (moved a) = P a
Comes P System.blocked = Unit
Comes P (System.violates v) = Unit
Comes P System.fails = Unit

pub Comes-checked :
    {A : Type 0} (P : A → Type 0) (o : Checked (Unit {0})) (a : A) → P a → Comes P (checked o a)
Comes-checked P (Enforcer.ok _) a h = h
Comes-checked P (Enforcer.violation v) a h = tt

pub Comes-when : {A : Type 0} (P : A → Type 0) (b : Bool) (a : A) → P a → Comes P (when b a)
Comes-when P true a h = h
Comes-when P false a h = tt

pub Comes-listed :
    {A B : Type 0} (Q : A → Type 0) (P : B → Type 0) (o : Run A) (f : A → B)
    → Yields Q o
    → ((a : A) → Q a → P (f a))
    → Comes P (listed o f)
Comes-listed Q P (Riding.ok a) f y h = h a y
Comes-listed Q P Riding.null_deref f y h = tt
Comes-listed Q P Riding.assert_failed f y h = tt
Comes-listed Q P Riding.out_of_fuel f y h = tt

module _ (p : ℕ) (goal : ℤ) (info : ElevatorInfo) (store : Store) (car : Car) (rider : Rider) where
  abbrev pub now : PassengerPc → Trip
  now pc = record { info = info; store = store; car = car; rider = rider; pc = pc }

  -- A section that leaves the array and the floor asked for.
  same_goals :
      (pc : PassengerPc) (t : Trip)
      → submitted pc ≡ true
      → SameGoals store t.store
      → t.rider.to_floor ≡ rider.to_floor
      → Kept p (now pc) t
  same_goals pc t on same goal = record {
    others = λ q _. same q;
    own = λ h _. same p ∙ h on ∙ sym goal;
  }

  whole_section-Kept : (pc : PassengerPc) → Comes (Kept p (now pc)) (whole_section p goal (now pc))
  unfolding whole_section passenger_enter passenger_exit submit_passenger
  whole_section-Kept System.resting = record { others = λ q _. refl; own = λ h on. cc on }
  whole_section-Kept System.calling =
      Comes-when (Kept p (now System.calling)) (System.has_room info) _
        (record { others = λ q other. ground arith; own = λ h on. ground arith })
  whole_section-Kept System.hailing =
      Comes-when (Kept p (now System.hailing)) (may_board info rider.from_floor) _
        (same_goals System.hailing _ refl (λ b. refl) refl)
  whole_section-Kept System.enter_first =
      Comes-checked (Kept p (now System.enter_first)) _ _
        (same_goals System.enter_first _ refl (λ b. refl) refl)
  whole_section-Kept System.enter_second =
      Comes-checked (Kept p (now System.enter_second)) _ _
        (same_goals System.enter_second _ refl (λ b. refl) refl)
  whole_section-Kept System.enter_update = same_goals System.enter_update _ refl (λ b. refl) refl
  whole_section-Kept System.boarding =
      Comes-listed (λ r. SameGoals store r.1) (Kept p (now System.boarding))
        (board fuel p info store) _ (board-SameGoals fuel p info store)
        (λ r same. same_goals System.boarding _ refl same refl)
  whole_section-Kept System.riding =
      Comes-when (Kept p (now System.riding)) (may_leave info rider.to_floor) _
        (same_goals System.riding _ refl (λ b. refl) refl)
  whole_section-Kept System.exit_first =
      Comes-checked (Kept p (now System.exit_first)) _ _
        (same_goals System.exit_first _ refl (λ b. refl) refl)
  whole_section-Kept System.exit_second =
      Comes-checked (Kept p (now System.exit_second)) _ _
        (same_goals System.exit_second _ refl (λ b. refl) refl)
  whole_section-Kept System.exit_update = same_goals System.exit_update _ refl (λ b. refl) refl
  whole_section-Kept System.leaving =
      Comes-listed (λ r. SameGoals store r.1) (Kept p (now System.leaving))
        (leave fuel p info store) _ (leave-SameGoals fuel p info store)
        (λ r same. same_goals System.leaving _ refl same refl)
  whole_section-Kept System.returned =
      Comes-checked (Kept p (now System.returned)) _ _
        (record { others = λ q _. refl; own = λ h on. cc on })

pub Comes-moved :
    {A : Type 0} (P : A → Type 0) (o : Outcome A) {a : A} → Comes P o → o ≡ moved a → P a
Comes-moved P o f h = rw h at f

trip-Asked :
    (s : System) (q p : ℕ) (goal : ℤ) (t : Trip)
    → q < passengers
    → whole_step q goal s ≡ moved t
    → Asked q s
    → Asked p s
    → Asked p (put_trip s q t)
trip-Asked s q p goal t lt done own asked =
    let kept : Kept q
        (now q goal (s.infos (elevator_of q)) s.store (s.cars (elevator_of q)) (s.riders q)
          (s.trips q))
        t =
      Comes-moved _ (whole_step q goal s)
        (whole_section-Kept q goal (s.infos (elevator_of q)) s.store (s.cars (elevator_of q))
          (s.riders q) (s.trips q))
        done in
    elim (Bool-cases (q == p)) [
      | inl self ↦
          let same : q ≡ p = ground arith in
          subst (λ r. Asked r (put_trip s q t)) same
            λ on. (
              lt,
              rw (update_self s.riders q t.rider)
                  (kept.own (λ was. (own was).1) (rw (update_self s.trips q t.pc) at on)),
            )
      | inr other ↦
          let apart : (p == q) ≡ false = ground arith in
          λ on.
            let (below, goals) = asked (rw other at on) in
            (below, rw other (kept.others p apart ∙ goals))
    ]

-- In every state that whole sections reach.
pub WholeReach-Asked : {origin : ℕ → ℤ} {s : System} (p : ℕ) → WholeReach origin s → Asked p s
WholeReach-Asked p System.start = λ on. cc on
WholeReach-Asked p (System.later r (System.lift e lt done)) = WholeReach-Asked p r
WholeReach-Asked p (System.later {s} r (System.trip q goal {t} lt g done)) =
    trip-Asked s q p goal t lt done (WholeReach-Asked q r) (WholeReach-Asked p r)
