-- ===== src/Elevator/System/Progress/Alone.antt =====
-- The thread of an elevator while no other thread takes a section: `elevator_ready` round after round,
-- until the door is open on a floor where somebody on board gets out.
use cs361_projects.Prelude.{
  ℕ, zero, suc, ◌+◌, ◌≤◌, ◌≡◌, refl, subst, ◌≢◌, ◌⊎◌, inl, inr, true, false, List, [], ◌∷◌, arith,
  length, All,
}
use cs361_projects.Prelude.Int.{ℤ, pos, ◌+ℤ◌, ◌==ℤ◌}
use cs361_projects.Prelude.Links.{Chain}
use cs361_projects.Elevator.Config.{max_capacity, passengers}
use cs361_projects.Elevator.Riding.{Store, next_of, ok}
use cs361_projects.Elevator.Enforcer.{Car, elevator_open_door, elevator_move_direction}
use cs361_projects.Elevator.Scheduler.{ElevatorInfo, nowhere, may_run, plan, announce, arrive}
use cs361_projects.Elevator.Scheduler.Target.{Among, distance, goals_of, waiting_floors, candidates}
use cs361_projects.Elevator.Scheduler.Direction.{
  InBuilding, IsDirection, Progress, Among-InBuilding, plan_lem,
}
use cs361_projects.Elevator.System
use cs361_projects.Elevator.System.{Lift, moved, lift_section, fuel}
use cs361_projects.Elevator.System.Invariant.{
  elevator_open_door_check-ok, elevator_move_direction_check-ok,
}

-- Sections of the elevator's thread, one behind the other, with the passengers' array as it is.
pub data Solo (e : ℕ) (store : Store) : Lift → Lift → Type 0 where
  here : {l : Lift} → Solo e store l l
  go_on :
      {l n : Lift} (m : Lift)
      → lift_section e store l ≡ moved m
      → Solo e store m n
      → Solo e store l n

-- An elevator between two rounds, with the riders `xs`.
pub record Ready (e : ℕ) (store : Store) (xs : List ℕ) (info : ElevatorInfo) (car : Car)
    : Type 0 where
  pub chain : Chain (next_of store) info.riding xs
  pub few : length xs ≤ max_capacity
  pub no_next : info.next_wait ≡ nowhere
  pub direction : IsDirection info.elevator_direction
  pub on_floor : InBuilding car.floor
  pub agree : info.elevator_floor ≡ car.floor
  pub shut : car.is_open ≡ false
  pub inside : car.passengers ≡ pos (length xs)
  pub runs : may_run info ≡ true

abbrev lift_at : ElevatorInfo → Car → System.ElevatorPc → Lift
lift_at info car pc = record { info = info; car = car; pc = pc }

-- What the planning of `elevator_ready` makes of the elevator.
abbrev heads : ElevatorInfo → (w d : ℤ) → ElevatorInfo
heads info w d = record info { wait_at = w; elevator_direction = d }

-- The door is open at a goal of somebody on board, and is announced.
pub record Served (e : ℕ) (store : Store) (xs : List ℕ) (l l' : Lift) : Type 0 where
  pub floor : ℤ
  pub solo : Solo e store l l'
  pub holds : l'.pc ≡ System.holding floor
  pub goal : Among floor (goals_of store xs)
  pub ready : l'.info.is_elevator_ready ≡ true
  pub at_floor : l'.info.elevator_floor ≡ floor

same_floor : (w at : ℤ) → (w ≡ at) ⊎ (w ≢ at)
same_floor w at = ground arith

module _ (e : ℕ) (store : Store) (x : ℕ) (xs : List ℕ) where
  -- A round that stops: down to the wait for a passenger.
  stop :
      (info : ElevatorInfo) (car : Car) (w d : ℤ)
      → Ready e store (x ∷ xs) info car
      → plan fuel e car.floor info store ≡ ok (heads info w d)
      → w ≡ car.floor
      → Solo e store
          (lift_at info car System.idle)
          (lift_at (announce (heads info w d)) (elevator_open_door car) (System.holding car.floor))
  unfolding lift_section
  stop info car w d r planned here_now =
      let at : (w ==ℤ car.floor) ≡ true = ground arith in
      let check = elevator_open_door_check-ok e (length (x ∷ xs)) car r.inside r.few r.shut in
      let f = car.floor in
      let i = heads info w d in
      go_on (lift_at i car (System.open_first f)) (rw (r.runs, planned, at)) (
        go_on (lift_at i car (System.open_second f)) (rw check) (
          go_on (lift_at i car (System.open_update f)) (rw check) (
            go_on (lift_at i (elevator_open_door car) (System.announcing f)) refl (
              go_on (lift_at (announce i) (elevator_open_door car) (System.holding f)) refl here))))

  -- A round that goes on to the next floor.
  pass :
      (info : ElevatorInfo) (car : Car) (w d : ℤ)
      → Ready e store (x ∷ xs) info car
      → plan fuel e car.floor info store ≡ ok (heads info w d)
      → w ≢ car.floor
      → (l : Lift)
      → Solo e store
          (lift_at (arrive car.floor (heads info w d)) (elevator_move_direction d car) System.idle)
          l
      → Solo e store (lift_at info car System.idle) l
  unfolding lift_section
  pass info car w d r planned elsewhere l rest =
      let other : (w ==ℤ car.floor) ≡ false = ground arith in
      let check =
        elevator_move_direction_check-ok e (length (x ∷ xs)) car r.inside r.few r.shut r.on_floor in
      let f = car.floor in
      let i = heads info w d in
      go_on (lift_at i car (System.moving f)) (rw (r.runs, planned, other)) (
        go_on (lift_at i car (System.move_first f d)) refl (
          go_on (lift_at i car (System.move_second f d)) (rw check) (
            go_on (lift_at i car (System.move_update f d)) (rw check) (
              go_on (lift_at i (elevator_move_direction d car) (System.landing f)) refl (
                go_on (lift_at (arrive f i) (elevator_move_direction d car) System.idle) refl
                  rest)))))

  pass-Ready :
      (info : ElevatorInfo) (car : Car) (w d : ℤ)
      → Ready e store (x ∷ xs) info car
      → IsDirection d
      → InBuilding (car.floor +ℤ d)
      → Ready e store (x ∷ xs) (arrive car.floor (heads info w d)) (elevator_move_direction d car)
  unfolding arrive elevator_move_direction may_run
  pass-Ready info car w d r dir next = ground arith

  -- What the planning comes to with somebody on board.
  record Choice (info : ElevatorInfo) (car : Car) (n : ℕ) : Type 0 where
    target : ℤ
    step : ℤ
    planned : plan fuel e car.floor info store ≡ ok (heads info target step)
    a_goal : Among target (goals_of store (x ∷ xs))
    near : distance car.floor target ≤ n
    is_step : IsDirection step
    next_floor : InBuilding (car.floor +ℤ step)
    nearer :
        (target ≡ car.floor) ⊎ (distance (car.floor +ℤ step) target + 1 ≡ distance car.floor target)

  All-Among :
      (at w : ℤ) (n : ℕ) (fs : List ℤ)
      → All (λ f. n ≤ distance at f) fs
      → Among w fs
      → n ≤ distance at w
  All-Among at w n [] h m = absurd m
  All-Among at w n (f ∷ fs) h (inl e) = rw e (h.0)
  All-Among at w n (f ∷ fs) h (inr m) = All-Among at w n fs h.1 m

  on_its_way :
      (at w next : ℤ)
      → InBuilding w
      → Progress at w next
      → (w ≡ at) ⊎ (distance next w + 1 ≡ distance at w)
  on_its_way at w next b (inl lost) = absurd (ground arith)
  on_its_way at w next b (inr h) = h

  choose :
      (n : ℕ) (w : ℤ) (info : ElevatorInfo) (car : Car)
      → Ready e store (x ∷ xs) info car
      → All InBuilding (waiting_floors passengers 0 e store)
      → All InBuilding (goals_of store (x ∷ xs))
      → Among w (goals_of store (x ∷ xs))
      → distance car.floor w ≤ n
      → Choice info car n
  unfolding candidates
  choose n w info car r hw hg m near =
      let (w', d, planned, target, dir, next, progress) =
        plan_lem fuel e car.floor info store (x ∷ xs) r.chain (omega (arith, r.few)) r.no_next
          r.direction r.on_floor hw hg in
      record {
        target = w';
        step = d;
        planned = planned;
        a_goal = target.0;
        near = omega (
          arith,
          All-Among car.floor w (distance car.floor w') (goals_of store (x ∷ xs)) target.1 m,
        );
        is_step = dir;
        next_floor = next;
        nearer =
            on_its_way car.floor w' (car.floor +ℤ d)
              (Among-InBuilding w' (goals_of store (x ∷ xs)) target.0 hg) progress;
      }

  gets_closer :
      {info : ElevatorInfo} {car : Car} (n : ℕ) (c : Choice info car (suc n))
      → c.target ≢ car.floor
      → distance (elevator_move_direction c.step car).floor c.target ≤ n
  unfolding elevator_move_direction
  gets_closer n c elsewhere = elim c.nearer [
    | inl same ↦ absurd (elsewhere same)
    | inr closer ↦ omega (arith, c.near, closer)
  ]

  halt :
      (info : ElevatorInfo) (car : Car) (n : ℕ)
      → Ready e store (x ∷ xs) info car
      → (c : Choice info car n) → c.target ≡ car.floor
      → (l : Lift) × Served e store (x ∷ xs) (lift_at info car System.idle) l
  unfolding announce
  halt info car n r c same = (
    _,
    record {
      floor = car.floor;
      solo = stop info car c.target c.step r c.planned same;
      holds = refl;
      goal = subst (λ f. Among f (goals_of store (x ∷ xs))) same c.a_goal;
      ready = refl;
      at_floor = r.agree;
    },
  )

  -- What comes of the next floor comes of this one.
  pass-Served :
      (info : ElevatorInfo) (car : Car) (n : ℕ)
      → Ready e store (x ∷ xs) info car
      → (c : Choice info car n) → c.target ≢ car.floor
      → (l : Lift) × Served e store
          (x ∷ xs)
          (lift_at
            (arrive car.floor (heads info c.target c.step))
            (elevator_move_direction c.step car)
            System.idle)
          l
      → (l : Lift) × Served e store (x ∷ xs) (lift_at info car System.idle) l
  pass-Served info car n r c elsewhere (l, s) = (
    l,
    record {
      floor = s.floor;
      solo = pass info car c.target c.step r c.planned elsewhere l s.solo;
      holds = s.holds;
      goal = s.goal;
      ready = s.ready;
      at_floor = s.at_floor;
    },
  )

  -- With a rider's goal at most `n` floors away, the thread comes to a goal within `n` rounds.
  pub serve :
      (n : ℕ) (w : ℤ) (info : ElevatorInfo) (car : Car)
      → Ready e store (x ∷ xs) info car
      → All InBuilding (waiting_floors passengers 0 e store)
      → All InBuilding (goals_of store (x ∷ xs))
      → Among w (goals_of store (x ∷ xs))
      → distance car.floor w ≤ n
      → (l : Lift) × Served e store (x ∷ xs) (lift_at info car System.idle) l
  serve zero w info car r hw hg m near =
      let c = choose zero w info car r hw hg m near in
      elim c.nearer [
        | inl same ↦ halt info car zero r c same
        | inr closer ↦ absurd (omega (arith, c.near, closer))
      ]
  serve (suc n) w info car r hw hg m near =
      let c = choose (suc n) w info car r hw hg m near in
      elim (same_floor c.target car.floor) [
        | inl same ↦ halt info car (suc n) r c same
        | inr elsewhere ↦ pass-Served info car (suc n) r c elsewhere (
            serve n c.target (arrive car.floor (heads info c.target c.step))
              (elevator_move_direction c.step car)
              (pass-Ready info car c.target c.step r c.is_step c.next_floor) hw hg c.a_goal
              (gets_closer n c elsewhere))
      ]
