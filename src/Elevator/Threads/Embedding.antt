-- ===== src/Elevator/Threads/Embedding.antt =====
-- Steps in which the test of `is_elevator_ready` and its reset are one are steps of the threads, two for a
-- passenger's turn and one for all else, and nothing comes in between.
use cs361_projects.Prelude.{
  ℕ, ◌≡◌, refl, sym, ap, ◌∙◌, subst, fun_ext, ◌⊎◌, inl, inr, Bool, true, false, ◌==◌, ==_iff,
  Bool-cases,
}
use cs361_projects.Prelude.Int.{ℤ}
use cs361_projects.Prelude.Links.{update, update_self}
use cs361_projects.Elevator.Riding.{Store}
use cs361_projects.Elevator.Enforcer.{Rider, Car}
use cs361_projects.Elevator.Scheduler.{ElevatorInfo, elevator_of, may_board, may_leave}
use cs361_projects.Elevator.System
use cs361_projects.Elevator.System.{
  System, Outcome, Trip, PassengerPc, moved, has_room, whole_section, whole_step, put_lift,
  put_trip, WholeReach,
}
use cs361_projects.Elevator.Threads
use cs361_projects.Elevator.Threads.{
  Threads, keeps, trip_section, trip_of, trip_step, after_trip, Step, Reach, Quiet, Undisturbed,
}
use cs361_projects.Elevator.Threads.Whole.{update_own, put_trip-own}

-- One section, or the test and then the rest.
abbrev Split : ℕ → ℤ → Trip → Trip → Type 0
Split p goal t t' =
    (trip_section p goal false t ≡ moved (t', false))
    ⊎ ((trip_section p goal false t ≡ moved (t, true))
        × (trip_section p goal true t ≡ moved (t', false)))

when-moved : (test : Bool) (t t' : Trip) → System.when test t ≡ moved t' → (test ≡ true) × (t ≡ t')
when-moved true t t' e = (refl, cc e)
when-moved false t t' e = absurd (cc e)

module _ (p : ℕ) (goal : ℤ) (info : ElevatorInfo) (store : Store) (car : Car) (rider : Rider) where
  abbrev now : PassengerPc → Trip
  now pc = record { info = info; store = store; car = car; rider = rider; pc = pc }

  kept :
      (pc : PassengerPc) (t' : Trip)
      → whole_section p goal (now pc) ≡ moved t'
      → keeps (whole_section p goal (now pc)) ≡ moved (t', false)
  kept pc t' e = ap keeps e

  section-Split :
      (pc : PassengerPc) (t' : Trip)
      → whole_section p goal (now pc) ≡ moved t'
      → Split p goal (now pc) t'
  unfolding trip_section whole_section
  section-Split System.calling t' e =
      let (room, same) = when-moved (has_room info) _ t' e in
      inl (rw room (ap (λ z. moved (z, false)) same))
  section-Split System.hailing t' e =
      let (may, same) = when-moved (may_board info rider.from_floor) _ t' e in
      inr (rw may refl, ap (λ z. moved (z, false)) same)
  section-Split System.riding t' e =
      let (may, same) = when-moved (may_leave info rider.to_floor) _ t' e in
      inr (rw may refl, ap (λ z. moved (z, false)) same)
  section-Split System.resting t' e = inl (kept System.resting t' e)
  section-Split System.enter_first t' e = inl (kept System.enter_first t' e)
  section-Split System.enter_second t' e = inl (kept System.enter_second t' e)
  section-Split System.enter_update t' e = inl (kept System.enter_update t' e)
  section-Split System.boarding t' e = inl (kept System.boarding t' e)
  section-Split System.exit_first t' e = inl (kept System.exit_first t' e)
  section-Split System.exit_second t' e = inl (kept System.exit_second t' e)
  section-Split System.exit_update t' e = inl (kept System.exit_update t' e)
  section-Split System.leaving t' e = inl (kept System.leaving t' e)
  section-Split System.returned t' e = inl (kept System.returned t' e)

abbrev pub threads : System → (ℕ → Bool) → Threads
threads s passed = record { system = s; passed = passed }

module _ (passed : ℕ → Bool) (p : ℕ) (off : passed p ≡ false) where
  -- Passenger `p` has passed her test too.
  abbrev pub tested : System → Threads
  tested s = threads s (update passed p true)

  tested-after : (s : System) → after_trip (threads s passed) p (trip_of p s) true ≡ tested s
  tested-after s = rw (put_trip-own p s) refl

  update-off : update passed p false ≡ passed
  update-off = subst (λ z. update passed p z ≡ passed) off (update_own passed p)

  update-again : update (update passed p true) p false ≡ passed
  update-again = fun_ext λ j. elim (Bool-cases (p == j)) [
    | inl here ↦ let e : p ≡ j = (==_iff p j).0 here in rw here (sym off ∙ ap passed e)
    | inr other ↦ rw other refl
  ]

  same-after :
      (s : System) (t : Trip)
      → after_trip (threads s passed) p t false ≡ threads (put_trip s p t) passed
  same-after s t = rw update-off refl

  reset-after :
      (s : System) (t : Trip) → after_trip (tested s) p t false ≡ threads (put_trip s p t) passed
  reset-after s t = rw update-again refl

  -- A family of states that these one or two sections do not leave.
  pub whole-steps :
      (C : Threads → Type 0) (s : System) (goal : ℤ) (t : Trip)
      → whole_step p goal s ≡ moved t
      → ((z : Trip) (b : Bool)
          → trip_step p goal (threads s passed) ≡ moved (z, b)
          → C (after_trip (threads s passed) p z b))
      → ((z : Trip) (b : Bool)
          → C (tested s)
          → trip_step p goal (tested s) ≡ moved (z, b)
          → C (after_trip (tested s) p z b))
      → C (threads (put_trip s p t) passed)
  whole-steps C s goal t done first second =
      let e = elevator_of p in
      go (section-Split p goal (s.infos e) s.store (s.cars e) (s.riders p) (s.trips p) t done)
    where
      go : Split p goal (trip_of p s) t → C (threads (put_trip s p t) passed)
      go (inl once) = subst C (same-after s t) (first t false (rw off once))
      go (inr (test, rest)) =
          let c : C (tested s) =
            subst C (tested-after s) (first (trip_of p s) true (rw off test)) in
          let on : update passed p true p ≡ true = update_self passed p true in
          subst C (reset-after s t) (second t false c (rw on rest))

abbrev pub nobody_passed : ℕ → Bool
nobody_passed _ = false

-- Behind some undisturbed order.
abbrev pub Orderly : (ℕ → ℤ) → Threads → Type 0
Orderly origin s = (r : Reach origin s) × Undisturbed r

-- What whole sections reach, some undisturbed order of the sections reaches.
pub WholeReach-Orderly :
    {origin : ℕ → ℤ} {s : System} → WholeReach origin s → Orderly origin (threads s nobody_passed)
WholeReach-Orderly System.start = (Threads.start, tt)
WholeReach-Orderly (System.later r (System.lift e lt done)) =
    let (r', u) = WholeReach-Orderly r in
    (Threads.later r' (Threads.lift e lt done), (u, λ q same. refl))
WholeReach-Orderly {origin} (System.later {s} r (System.trip p goal {t} lt g done)) =
    let (r', u) = WholeReach-Orderly r in
    whole-steps nobody_passed p refl (Orderly origin) s goal t done
      (λ z b step.
        (Threads.later r' (Threads.trip p goal lt g step), (u, λ q same on. absurd (cc on))))
      (λ z b o step. (
        Threads.later o.0 (Threads.trip p goal lt g step),
        (
          o.1,
          λ q same on. elim (Bool-cases (p == q)) [
            | inl hers ↦ sym ((==_iff p q).0 hers)
            | inr other ↦ absurd (cc (rw other at on))
          ],
        ),
      ))
