-- ===== src/Elevator/Display/Count.antt =====
-- How many passengers are inside the elevators that stand on a floor.
use cs361_projects.Prelude.{
  and_parts, ℕ, zero, suc, ◌+◌, ◌*◌, ◌≤◌, ◌<◌, ◌≡◌, refl, sym, ◌∙◌, Bool, true, false, ◌&&◌, Option,
  none, some, List, ◌∷◌, arith, ◌⊎◌, subst, ◌==◌, Bool-cases, inl, inr, length, if◌then◌else◌,
}
use cs361_projects.Prelude.Int.{ℤ}
use cs361_projects.Prelude.Links.{
  ◌∈◌, ◌∉◌, Distinct, erase, has-erase, Distinct-erase, length-erase,
}
use cs361_projects.Elevator.Config.{max_capacity, elevators}
use cs361_projects.Elevator.Scheduler.{elevator_of}
use cs361_projects.Elevator.Scheduler.Direction.{InBuilding}
use cs361_projects.Elevator.System
use cs361_projects.Elevator.System.{System, PassengerPc, WholeReach}
use cs361_projects.Elevator.System.Invariant.{CarInv, busy, aboard}
use cs361_projects.Elevator.System.Safety.{WholeReach-SystemInv}
use cs361_projects.Elevator.Display.{is_inside}
use cs361_projects.Elevator.Display.Boarded.{within, WholeReach-Boarded}

-- How many of the `n` numbers from `i` on pass the test.
unfoldable pub count : ℕ → ℕ → (ℕ → Bool) → ℕ
count zero i test = 0
count (suc n) i test = let rest = count n (i + 1) test in if test i then suc rest else rest

count-le-length :
    (n i : ℕ) (test : ℕ → Bool) (xs : List ℕ)
    → Distinct xs
    → ((q : ℕ) → i ≤ q → test q ≡ true → q ∈ xs)
    → count n i test ≤ length xs
unfolding count
count-le-length zero i test xs d all = omega arith
count-le-length (suc n) i test xs d all = elim (Bool-cases (test i)) [
  | inl on ↦
      let rest =
        count-le-length n (i + 1) test (erase i xs) (Distinct-erase i xs d)
          (λ q le passes. ground (arith, has-erase q i xs d, all q)) in
      rw on (omega (arith, rest, length-erase i xs (all i (omega arith) on)))
  | inr off ↦
      rw off (count-le-length n (i + 1) test xs d (λ q le passes. all q (omega arith) passes))
]

count_mono :
    (n i : ℕ) (test test' : ℕ → Bool)
    → ((q : ℕ) → test q ≡ true → test' q ≡ true)
    → count n i test ≤ count n i test'
unfolding count
count_mono zero i test test' imp = omega arith
count_mono (suc n) i test test' imp = ground (arith, imp i, count_mono n (i + 1) test test' imp)

abbrev of_car : (ℕ → Bool) → ℕ → ℕ → Bool
of_car test e q = test q && (elevator_of q == e)

-- Every passenger belongs to one of the four elevators.
count-of_car :
    (n i : ℕ) (test : ℕ → Bool)
    → count n i test
      ≤ count n i (of_car test 0)
        + count n i (of_car test 1)
        + count n i (of_car test 2)
        + count n i (of_car test 3)
unfolding count
count-of_car zero i test = omega arith
count-of_car (suc n) i test = ground (arith, count-of_car n (i + 1) test)

abbrev is_boarding : PassengerPc → Bool
is_boarding System.boarding = true
is_boarding _ = false

-- The riders of an elevator, with the one who has entered and is not on the list yet.
abbrev those_within : (ℕ → PassengerPc) → List ℕ → Option ℕ → List ℕ
those_within trips xs none = xs
those_within trips xs (some p) = if is_boarding (trips p) then p ∷ xs else xs

within_cases :
    (pc : PassengerPc)
    → within pc ≡ true
    → ((is_boarding pc ≡ true) × (busy pc ≡ true)) ⊎ (aboard pc ≡ true)
within_cases System.boarding on = inl (refl, refl)
within_cases pc on = ground arith

module _ (s : System) (e : ℕ) (xs : List ℕ) where
  abbrev Inv : Option ℕ → Type 0
  Inv actor = CarInv e (s.infos e) (s.cars e) (s.lifts e) s.store s.riders s.trips xs actor

  -- Who has the turn is the only one that can be boarding.
  the_actor :
      (p q : ℕ) → Inv (some p) → busy (s.trips q) ≡ true → (elevator_of q == e) ≡ true → p ≡ q
  the_actor p q h on hers = ground (arith, h.turn.acting q)

  listed_aboard :
      (actor : Option ℕ) (q : ℕ)
      → Inv actor
      → aboard (s.trips q) ≡ true
      → (elevator_of q == e) ≡ true
      → q ∈ xs
  listed_aboard actor q h on hers = h.on_list.members q ∙ rw (on, hers)

  all_listed :
      (actor : Option ℕ) (q : ℕ)
      → Inv actor
      → within (s.trips q) ≡ true
      → (elevator_of q == e) ≡ true
      → q ∈ those_within s.trips xs actor
  all_listed none q h on hers = elim (within_cases (s.trips q) on) [
    | inl turn ↦ absurd (ground (arith, h.turn.acting q))
    | inr on_board ↦ listed_aboard none q h on_board hers
  ]
  all_listed (some p) q h on hers = elim (within_cases (s.trips q) on) [
    | inl turn ↦
        let same : p ≡ q = the_actor p q h turn.1 hers in
        let first : is_boarding (s.trips p) ≡ true =
          subst (λ r. is_boarding (s.trips r) ≡ true) (sym same) turn.0 in
        rw first (ground arith)
    | inr on_board ↦
        let member = listed_aboard (some p) q h on_board hers in
        elim (Bool-cases (is_boarding (s.trips p))) [
          | inl b ↦ rw b (ground arith)
          | inr b ↦ rw b member
        ]
  ]

  boards : (pc : PassengerPc) → is_boarding pc ≡ true → pc ≡ System.boarding
  boards System.boarding on = refl
  boards pc on = cc

  those_few :
      (actor : Option ℕ)
      → Inv actor
      → Distinct (those_within s.trips xs actor)
        × (length (those_within s.trips xs actor) ≤ max_capacity)
  those_few none h = (h.on_list.distinct, h.on_list.few)
  those_few (some p) h = elim (Bool-cases (is_boarding (s.trips p))) [
    | inl b ↦
        let at : s.trips p ≡ System.boarding = boards (s.trips p) b in
        let hers : elevator_of p ≡ e = ground (arith, h.turn.acting p) in
        let off : p ∉ xs = h.on_list.members p ∙ rw at in
        let room = rw at at (h.people p hers) in rw b ((off, h.on_list.distinct), room.1)
    | inr b ↦ rw b (h.on_list.distinct, h.on_list.few)
  ]

abbrev is_within : System → ℕ → Bool
is_within s q = within (s.trips q)

module _ (origin : ℕ → ℤ) (s : System) (b : (p : ℕ) → InBuilding (origin p))
    (r : WholeReach origin s) where
  car_within : (n i e : ℕ) → e < elevators → count n i (of_car (is_within s) e) ≤ max_capacity
  car_within n i e lt =
      let (xs, actor, h) = WholeReach-SystemInv b r e lt in
      let (apart, few) = those_few s e xs actor h in
      let bound =
        count-le-length n i (of_car (is_within s) e) (those_within s.trips xs actor) apart
          (λ q le passes.
            let (on, hers) = and_parts (is_within s q) (elevator_of q == e) passes in
            all_listed s e xs actor q h on hers) in
      omega (arith, bound, few)

  -- No more than the elevators hold together.
  pub count-inside :
      (n i : ℕ) (floor : ℤ)
      → count n i (λ p. is_inside floor s.cars (s.riders p)) ≤ elevators * max_capacity
  unfolding is_inside
  count-inside n i floor =
      let fewer =
        count_mono n i (λ p. is_inside floor s.cars (s.riders p)) (is_within s)
          (λ q on. ground (arith, (WholeReach-Boarded q r).entered)) in
      omega (
        arith,
        fewer,
        count-of_car n i (is_within s),
        car_within n i 0 (omega arith),
        car_within n i 1 (omega arith),
        car_within n i 2 (omega arith),
        car_within n i 3 (omega arith),
      )
