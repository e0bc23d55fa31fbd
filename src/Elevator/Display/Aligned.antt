-- ===== src/Elevator/Display/Aligned.antt =====
-- The rows of the board stay aligned.
use cs361_projects.Prelude.{
  ℕ, zero, suc, ◌+◌, ◌-◌, ◌*◌, ◌≤◌, ◌<◌, ◌≡◌, refl, ◌∙◌, ap, Bool, true, ◌&&◌, [], ◌∷◌, ◌++◌, arith,
  ◌==◌, ==_iff, Bool-cases, inl, inr, length, length-append,
}
use cs361_projects.Prelude.Int.{ℤ, pos, negsuc, pos_part, ◌-ℤ◌}
use cs361_projects.Prelude.Text.{Chars}
use cs361_projects.Elevator.Config.{max_capacity, elevators, floors, passengers}
use cs361_projects.Elevator.Enforcer.{Car, Rider}
use cs361_projects.Elevator.Scheduler.Direction.{InBuilding}
use cs361_projects.Elevator.Threads.{Threads, Reach, Undisturbed}
use cs361_projects.Elevator.Threads.Whole.{Undisturbed-Clean}
use cs361_projects.Elevator.System.{System, WholeReach}
use cs361_projects.Elevator.System.Safety.{WholeReach-SystemInv}
use cs361_projects.Elevator.Display.{
  decimal, decimal2, cells, is_inside, inside, spaces, queue, columns, row,
}
use cs361_projects.Elevator.Display.Count.{count, count-inside}

all_below : ℕ → (ℕ → Bool) → Bool
all_below zero test = true
all_below (suc n) test = test n && all_below n test

all_below_sound :
    (n : ℕ) (test : ℕ → Bool) (x : ℕ) → all_below n test ≡ true → x < n → test x ≡ true
unfolding all_below
all_below_sound zero test x h lt = absurd (omega arith)
all_below_sound (suc n) test x h lt = ground (arith, all_below_sound n test x)

two_wide : all_below floors (λ n. length (decimal2 (pos n)) == 2) ≡ true
unfolding all_below decimal2
two_wide = refl

-- The number of a floor is two bytes wide.
length-decimal2 : (f : ℤ) → InBuilding f → length (decimal2 f) ≡ 2
length-decimal2 (pos n) b =
    (==_iff (length (decimal2 (pos n))) 2).0
      (all_below_sound floors (λ n. length (decimal2 (pos n)) == 2) n two_wide (omega (arith, b)))
length-decimal2 (negsuc n) b = absurd (omega (arith, b))

length-cells : (n el : ℕ) (floor : ℤ) (cars : ℕ → Car) → length (cells n el floor cars) ≡ 3 * n
unfolding cells
length-cells zero el floor cars = refl
length-cells (suc n) el floor cars = omega (arith, length-cells n (el + 1) floor cars)

length-spaces : (n : ℕ) → length (spaces n) ≡ n
unfolding spaces
length-spaces zero = refl
length-spaces (suc n) = ap suc (length-spaces n)

less_five : (m : ℕ) → 5 ≤ m → pos m -ℤ pos 5 ≡ pos (m - 5)
unfolding ◌-ℤ◌
less_five m h = ground arith

one_more :
    (c : ℕ) (f : ℤ) (rest : Chars)
    → InBuilding f
    → length rest ≡ 5 * c
    → length (b'-' ∷ b'>' ∷ decimal2 f ++ b' ' ∷ rest) ≡ 5 * suc c
one_more c f rest b h =
    rw (length-append (b'-' ∷ b'>' ∷ decimal2 f) (b' ' ∷ rest))
      (omega (arith, length-decimal2 f b, h))

module _ (floor : ℤ) (cars : ℕ → Car) (riders : ℕ → Rider)
    (goals : (p : ℕ) → InBuilding (riders p).to_floor) where
  abbrev here : ℕ → Bool
  here p = is_inside floor cars (riders p)

  -- Everybody inside takes five bytes from `align`.
  inside_lem :
      (n p m : ℕ)
      → 5 * count n p here ≤ m
      → ((inside n p floor cars riders (pos m)).1 ≡ pos (m - 5 * count n p here))
        × (length (inside n p floor cars riders (pos m)).0 ≡ 5 * count n p here)
  unfolding inside count
  inside_lem zero p m h = (ap pos (omega arith), refl)
  inside_lem (suc n) p m h = elim (Bool-cases (here p)) [
    | inl on ↦
        let room : 5 * suc (count n (p + 1) here) ≤ m = rw on at h in
        let five : 5 ≤ m = omega arith in
        let (left, wide) = inside_lem n (p + 1) (m - 5) (omega arith) in
        rw (on, less_five m five)
          (
            left ∙ ap pos (omega arith),
            one_more (count n (p + 1) here) (riders p).to_floor
                (inside n (p + 1) floor cars riders (pos (m - 5))).0 (goals p) wide,
          )
    | inr off ↦ rw off (inside_lem n (p + 1) m (rw off at h))
  ]

  -- The columns take the same width however the passengers are spread, if they are few enough.
  length-columns :
      count passengers 0 here ≤ elevators * max_capacity → length (columns floor cars riders) ≡ 76
  unfolding columns
  length-columns few =
      let (left, wide) = inside_lem passengers 0 60 (omega arith) in
      let r = inside passengers 0 floor cars riders (pos 60) in
      let four : Chars = b' ' ∷ b' ' ∷ b' ' ∷ b' ' ∷ [] in
      rw
        (
          length-append (cells elevators 0 floor cars ++ four ++ r.0) (spaces (pos_part r.1)),
          length-append (cells elevators 0 floor cars ++ four) r.0,
          length-append (cells elevators 0 floor cars) four,
          length-cells elevators 0 floor cars,
          wide,
          left,
          length-spaces (60 - 5 * count passengers 0 here),
        )
        (omega arith)

-- In every state that whole sections reach, with passengers who start in the building, the rows that are
-- printed for the floors are aligned: behind the number of the floor and the tab, there are 76 bytes in
-- front of the `X` of each row, wherever the elevators are and whoever rides in them. Behind the `X`
-- come those who wait on the floor.
pub row-aligned :
    (origin : ℕ → ℤ) (s : System) (floor : ℤ)
    → ((p : ℕ) → InBuilding (origin p))
    → WholeReach origin s
    → (left : Chars) × (row floor s.cars s.riders
        ≡ decimal floor ++ 9 ∷ left ++ b'X' ∷ b' ' ∷ queue passengers 0 floor s.riders ++ 10 ∷ [])
      × (length left ≡ 76)
unfolding row
row-aligned origin s floor b r =
    let (xs, actor, h) = WholeReach-SystemInv b r 0 (omega arith) in
    (
      columns floor s.cars s.riders,
      refl,
      length-columns floor s.cars s.riders (λ p. (h.floors.asked p).1)
          (count-inside origin s b r passengers 0 floor),
    )

-- Behind every order in which nothing of the same elevator comes between a passenger's test of
-- `is_elevator_ready` and her reset of it, with passengers who start in the building, the rows that are
-- printed for the floors are aligned: behind the number of the floor and the tab, there are 76 bytes in
-- front of the `X` of each row, wherever the elevators are and whoever rides in them. Behind the `X` come
-- those who wait on the floor.
pub row_lined_up :
    (origin : ℕ → ℤ) (s : Threads) (floor : ℤ)
    → ((p : ℕ) → InBuilding (origin p))
    → (r : Reach origin s) → Undisturbed r
    → (left : Chars) × (row floor s.system.cars s.system.riders
        ≡ decimal floor
          ++ 9 ∷ left
          ++ b'X' ∷ b' ' ∷ queue passengers 0 floor s.system.riders
          ++ 10 ∷ [])
      × (length left ≡ 76)
row_lined_up origin s floor b r u =
    row-aligned origin s.system floor b (Undisturbed-Clean r u).whole
