-- ===== src/Elevator/Threads/Whole.antt =====
-- In an undisturbed order of the sections a test of `is_elevator_ready` and its reset come to what the two
-- make as one.
use cs361_projects.Prelude.{
  ℕ, ◌<◌, ◌≡◌, refl, sym, ap, ◌∙◌, subst, fun_ext, ◌⊎◌, inl, inr, Bool, true, false, ◌==◌, ==_iff,
  Bool-cases,
}
use cs361_projects.Prelude.Int.{ℤ}
use cs361_projects.Prelude.Links.{update}
use cs361_projects.Elevator.Config.{elevators, passengers}
use cs361_projects.Elevator.Riding.{Store}
use cs361_projects.Elevator.Scheduler.Direction.{InBuilding}
use cs361_projects.Elevator.Enforcer.{Rider, Car}
use cs361_projects.Elevator.Scheduler.{ElevatorInfo, elevator_of, may_board, may_leave}
use cs361_projects.Elevator.System
use cs361_projects.Elevator.System.{
  System, Outcome, Lift, Trip, PassengerPc, moved, has_room, whole_section, whole_step, put_lift,
  put_trip, lift_step, WholeReach,
}
use cs361_projects.Elevator.Threads
use cs361_projects.Elevator.Threads.{
  Threads, keeps, trip_section, trip_of, trip_step, after_lift, after_trip, Step, Reach, Quiet,
  Undisturbed,
}

-- The test that a passenger waits for.
abbrev pub tests : ElevatorInfo → Rider → PassengerPc → Bool
tests info rider System.hailing = may_board info rider.from_floor
tests info rider System.riding = may_leave info rider.to_floor
tests info rider _ = false

abbrev pub tests_of : ℕ → System → Bool
tests_of p s = tests (s.infos (elevator_of p)) (s.riders p) (s.trips p)

-- A section is a test that is passed, or what the whole makes.
abbrev Piece : ℕ → ℤ → Trip → Trip → Bool → Type 0
Piece p goal t t' b =
    ((b ≡ true) × (t' ≡ t) × (tests t.info t.rider t.pc ≡ true))
    ⊎ ((b ≡ false) × (whole_section p goal t ≡ moved t'))

keeps-moved :
    (o : Outcome Trip) (t' : Trip) (b : Bool)
    → keeps o ≡ moved (t', b)
    → (b ≡ false) × (o ≡ moved t')
keeps-moved (System.moved t) t' b e = (cc e, cc e)
keeps-moved System.blocked t' b e = absurd (cc e)
keeps-moved (System.violates v) t' b e = absurd (cc e)
keeps-moved System.fails t' b e = absurd (cc e)

when-passed :
    (test : Bool) (t t' : Trip) (b : Bool)
    → System.when {A = Trip × Bool} test (t, true) ≡ moved (t', b)
    → (b ≡ true) × (t' ≡ t) × (test ≡ true)
when-passed true t t' b e = (cc e, cc e, refl)
when-passed false t t' b e = absurd (cc e)

module _ (p : ℕ) (goal : ℤ) (info : ElevatorInfo) (store : Store) (car : Car) (rider : Rider) where
  abbrev now : PassengerPc → Trip
  now pc = record { info = info; store = store; car = car; rider = rider; pc = pc }

  kept :
      (pc : PassengerPc) (t' : Trip) (b : Bool)
      → keeps (whole_section p goal (now pc)) ≡ moved (t', b)
      → Piece p goal (now pc) t' b
  kept pc t' b e = inr (keeps-moved (whole_section p goal (now pc)) t' b e)

  section-Piece :
      (pc : PassengerPc) (passed : Bool) (t' : Trip) (b : Bool)
      → (passed ≡ true → tests info rider pc ≡ true)
      → trip_section p goal passed (now pc) ≡ moved (t', b)
      → Piece p goal (now pc) t' b
  unfolding trip_section whole_section
  section-Piece System.hailing true t' b out e = inr (cc e, rw (out refl) (cc e))
  section-Piece System.hailing false t' b out e =
      inl (when-passed (may_board info rider.from_floor) (now System.hailing) t' b e)
  section-Piece System.riding true t' b out e = inr (cc e, rw (out refl) (cc e))
  section-Piece System.riding false t' b out e =
      inl (when-passed (may_leave info rider.to_floor) (now System.riding) t' b e)
  section-Piece System.calling passed t' b out e = elim (Bool-cases (has_room info)) [
    | inl room ↦ let e' = rw room at e in inr (cc e', rw room (cc e'))
    | inr full ↦ absurd (cc (rw full at e))
  ]
  section-Piece System.resting passed t' b out e = kept System.resting t' b e
  section-Piece System.enter_first passed t' b out e = kept System.enter_first t' b e
  section-Piece System.enter_second passed t' b out e = kept System.enter_second t' b e
  section-Piece System.enter_update passed t' b out e = kept System.enter_update t' b e
  section-Piece System.boarding passed t' b out e = kept System.boarding t' b e
  section-Piece System.exit_first passed t' b out e = kept System.exit_first t' b e
  section-Piece System.exit_second passed t' b out e = kept System.exit_second t' b e
  section-Piece System.exit_update passed t' b out e = kept System.exit_update t' b e
  section-Piece System.leaving passed t' b out e = kept System.leaving t' b e
  section-Piece System.returned passed t' b out e = kept System.returned t' b e

-- What passenger `p` works on is put back as it is.
pub update_own : {A : Type 0} (f : ℕ → A) (i : ℕ) → update f i (f i) ≡ f
update_own f i = fun_ext λ j. elim (Bool-cases (i == j)) [
  | inl same ↦ let e : i ≡ j = (==_iff i j).0 same in rw same (ap f e)
  | inr other ↦ rw other refl
]

pub put_trip-own : (p : ℕ) (s : System) → put_trip s p (trip_of p s) ≡ s
put_trip-own p s =
    rw
      (
        update_own s.infos (elevator_of p),
        update_own s.cars (elevator_of p),
        update_own s.riders p,
        update_own s.trips p,
      )
      refl

-- The state is one that the wholes reach, and who has passed a test passes it still.
pub record Clean (origin : ℕ → ℤ) (s : Threads) : Type 0 where
  pub whole : WholeReach origin s.system
  pub still : (q : ℕ) → s.passed q ≡ true → tests_of q s.system ≡ true

lift-Clean :
    {origin : ℕ → ℤ} (s : Threads) (e : ℕ) (l : Lift) (lt : e < elevators)
    (done : lift_step e s.system ≡ moved l)
    → Clean origin s
    → ((q : ℕ) → elevator_of q ≡ e → s.passed q ≡ false)
    → Clean origin (after_lift s e l)
lift-Clean s e l lt done c quiet = record {
  whole = System.later c.whole (System.lift e lt done);
  still = λ q on. elim (Bool-cases (e == elevator_of q)) [
    | inl same ↦ absurd (cc (on, quiet q (sym ((==_iff e (elevator_of q)).0 same))))
    | inr other ↦ rw other (c.still q on)
  ];
}

test-Clean :
    {origin : ℕ → ℤ} (s : Threads) (p : ℕ) (t : Trip)
    → t ≡ trip_of p s.system
    → tests_of p s.system ≡ true
    → Clean origin s
    → Clean origin (after_trip s p t true)
test-Clean {origin} s p t same test c =
    let back : put_trip s.system p t ≡ s.system =
      ap (put_trip s.system p) same ∙ put_trip-own p s.system in
    record {
      whole = subst (λ z. WholeReach origin z) (sym back) c.whole;
      still = λ q on.
          subst (λ z. tests_of q z ≡ true) (sym back)
            (elim (Bool-cases (p == q)) [
              | inl hers ↦ subst (λ r. tests_of r s.system ≡ true) ((==_iff p q).0 hers) test
              | inr other ↦ c.still q (rw other at on)
            ]);
    }

whole-Clean :
    {origin : ℕ → ℤ} (s : Threads) (p : ℕ) (goal : ℤ) (t : Trip)
    → p < passengers
    → InBuilding goal
    → whole_step p goal s.system ≡ moved t
    → Clean origin s
    → ((q : ℕ) → elevator_of q ≡ elevator_of p → s.passed q ≡ true → q ≡ p)
    → Clean origin (after_trip s p t false)
whole-Clean s p goal t lt g done c quiet = record {
  whole = System.later c.whole (System.trip p goal lt g done);
  still = λ q on. elim (Bool-cases (p == q)) [
    | inl hers ↦ absurd (cc (rw hers at on))
    | inr other ↦
        let passed : s.passed q ≡ true = rw other at on in
        elim (Bool-cases (elevator_of p == elevator_of q)) [
          | inl same ↦
              let e : q ≡ p =
                quiet q (sym ((==_iff (elevator_of p) (elevator_of q)).0 same)) passed in
              absurd (cc (other, (==_iff p q).1 (sym e)))
          | inr apart ↦ rw (apart, other) (c.still q passed)
        ]
  ];
}

trip-Clean :
    {origin : ℕ → ℤ} (s : Threads) (p : ℕ) (goal : ℤ) (t : Trip) (b : Bool)
    → p < passengers
    → InBuilding goal
    → Piece p goal (trip_of p s.system) t b
    → Clean origin s
    → ((q : ℕ) → elevator_of q ≡ elevator_of p → s.passed q ≡ true → q ≡ p)
    → Clean origin (after_trip s p t b)
trip-Clean {origin} s p goal t b lt g (inl (on, same, test)) c quiet =
    subst (λ z. Clean origin (after_trip s p t z)) (sym on) (test-Clean s p t same test c)
trip-Clean {origin} s p goal t b lt g (inr (off, done)) c quiet =
    subst (λ z. Clean origin (after_trip s p t z)) (sym off)
      (whole-Clean s p goal t lt g done c quiet)

-- Every undisturbed order.
pub Undisturbed-Clean :
    {origin : ℕ → ℤ} {s : Threads} (r : Reach origin s) → Undisturbed r → Clean origin s
Undisturbed-Clean Threads.start u = record { whole = System.start; still = λ q on. absurd (cc on) }
Undisturbed-Clean (Threads.later r (Threads.lift e {l} lt done)) u =
    lift-Clean _ e l lt done (Undisturbed-Clean r u.0) u.1
Undisturbed-Clean (Threads.later {s} r (Threads.trip p goal {t} {b} lt g done)) u =
    let c = Undisturbed-Clean r u.0 in
    let sys = s.system in
    let e = elevator_of p in
    trip-Clean s p goal t b lt g
      (section-Piece p goal (sys.infos e) sys.store (sys.cars e) (sys.riders p) (sys.trips p)
        (s.passed p) t b (c.still p) done)
      c u.1
