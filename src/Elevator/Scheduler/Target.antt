-- ===== src/Elevator/Scheduler/Target.antt =====
-- The choice of the next stop in `elevator_ready`: lines 307-355 of hw7-jli230-main/C/hw7.c.
use cs361_projects.Prelude.{
  ℕ, zero, suc, ◌+◌, ◌≤◌, ◌<◌, ◌≡◌, refl, sym, subst, ◌⊎◌, inl, inr, Bool, true, false, ◌&&◌, List,
  [], ◌∷◌, map, arith, ◌==◌, if◌then◌else◌, Bool-cases, length, All,
}
use cs361_projects.Prelude.Int.{ℤ, pos, ◌-ℤ◌, abs, ◌≤ℤ◌, ◌==ℤ◌}
use cs361_projects.Prelude.Links.{Chain}
use cs361_projects.Elevator.Config.{passengers}
use cs361_projects.Elevator.Riding.{Store, next_of, PassengerInfo, ok}
use cs361_projects.Elevator.Scheduler.{
  ElevatorInfo, nowhere, closer, closest_rider, scan_waiting, closest_waiting, choose_target,
}

abbrev pub distance : ℤ → ℤ → ℕ
distance at floor = abs (floor -ℤ at)

abbrev pub Among : ℤ → List ℤ → Type 0
Among w [] = ⊥
Among w (f ∷ fs) = (w ≡ f) ⊎ Among w fs

-- One of the floors, and no other of them is nearer.
abbrev pub IsClosest : ℤ → ℤ → List ℤ → Type 0
IsClosest at w fs = Among w fs × All (λ f. distance at w ≤ distance at f) fs

-- The closest floor, or -1 where there is none to choose from.
abbrev pub IsTarget : ℤ → ℤ → List ℤ → Type 0
IsTarget at w [] = w ≡ nowhere
IsTarget at w (f ∷ fs) = IsClosest at w (f ∷ fs)

-- The fold of the walk over the floors.
pub nearest : ℤ → ℤ → List ℤ → ℤ
nearest at c [] = c
nearest at c (f ∷ fs) = nearest at (closer at f c) fs

closer_lem :
    (at f c : ℤ)
    → ((closer at f c ≡ f) ⊎ (closer at f c ≡ c))
      × (distance at (closer at f c) ≤ distance at f)
      × (distance at (closer at f c) ≤ distance at c)
unfolding closer
closer_lem at f c = ground arith

nearest_le : (at c : ℤ) (fs : List ℤ) → distance at (nearest at c fs) ≤ distance at c
unfolding nearest
nearest_le at c [] = omega arith
nearest_le at c (f ∷ fs) = omega (arith, nearest_le at (closer at f c) fs, closer_lem at f c)

nearest-All : (at c : ℤ) (fs : List ℤ) → All (λ f. distance at (nearest at c fs) ≤ distance at f) fs
unfolding nearest
nearest-All at c [] = tt
nearest-All at c (f ∷ fs) = (
  omega (arith, nearest_le at (closer at f c) fs, closer_lem at f c),
  nearest-All at (closer at f c) fs,
)

nearest-Among : (at c : ℤ) (fs : List ℤ) → Among (nearest at c fs) (c ∷ fs)
unfolding nearest
nearest-Among at c [] = inl refl
nearest-Among at c (f ∷ fs) = ground (arith, nearest-Among at (closer at f c) fs, closer_lem at f c)

pub nearest-IsClosest : (at c : ℤ) (fs : List ℤ) → IsClosest at (nearest at c fs) (c ∷ fs)
nearest-IsClosest at c fs = (nearest-Among at c fs, (nearest_le at c fs, nearest-All at c fs))

abbrev pub goals_of : Store → List ℕ → List ℤ
goals_of s xs = map (λ a. (s a).to_floor) xs

closest_rider-nearest :
    (k p : ℕ) (c at : ℤ) (s : Store) (xs : List ℕ)
    → Chain (next_of s) (next_of s p) xs
    → length xs < k
    → closest_rider k p c at s ≡ ok (nearest at c (goals_of s xs))
unfolding closest_rider nearest
closest_rider-nearest zero p c at s xs h lt = elim lt [ ]
closest_rider-nearest (suc k) p c at s [] h lt = rw (h, closest_rider) refl
closest_rider-nearest (suc k) p c at s (x ∷ xs) h lt =
    rw (h.0, closest_rider)
      (closest_rider-nearest k x (closer at (s x).to_floor c) at s xs h.1 (omega arith))

-- The floors of those the array shows as waiting for elevator `e`, from index `i` on.
unfoldable pub waiting_floors : ℕ → ℕ → ℕ → Store → List ℤ
waiting_floors zero i e s = []
waiting_floors (suc n) i e s =
    let rest = waiting_floors n (i + 1) e s in
    if ((s i).status == 0) && ((s i).elenumber == e) then (s i).from_floor ∷ rest else rest

abbrev waits_for : ℕ → PassengerInfo → Bool
waits_for e info = (info.status == 0) && (info.elenumber == e)

closer_self : (at f : ℤ) → closer at f f ≡ f
unfolding closer
closer_self at f = ground arith

scan_waiting_first :
    (e : ℕ) (at : ℤ) (info : PassengerInfo)
    → waits_for e info ≡ true
    → scan_waiting e at info nowhere ≡ info.from_floor
unfolding scan_waiting
scan_waiting_first e at info h = rw (h, closer_self at info.from_floor)

scan_waiting_busy :
    (e : ℕ) (at c : ℤ) (info : PassengerInfo)
    → waits_for e info ≡ false
    → scan_waiting e at info c ≡ c
unfolding scan_waiting
scan_waiting_busy e at c info h = rw h

-- No one waits on a floor below the ground.
abbrev pub AboveGround : List ℤ → Type 0
AboveGround fs = All (λ f. pos 0 ≤ℤ f) fs

above : (at f c : ℤ) → pos 0 ≤ℤ f → pos 0 ≤ℤ c → pos 0 ≤ℤ closer at f c
above at f c h g = ground (arith, closer_lem at f c)

closest_waiting-nearest :
    (n i e : ℕ) (at c : ℤ) (s : Store)
    → AboveGround (waiting_floors n i e s)
    → pos 0 ≤ℤ c
    → closest_waiting n i e at c s ≡ nearest at c (waiting_floors n i e s)
unfolding closest_waiting scan_waiting waiting_floors nearest
closest_waiting-nearest zero i e at c s h g = refl
closest_waiting-nearest (suc n) i e at c s h g = elim (Bool-cases (waits_for e (s i))) [
  | inl waits ↦
      let keep : (c ==ℤ nowhere) ≡ false = ground arith in
      let h' : AboveGround ((s i).from_floor ∷ waiting_floors n (i + 1) e s) = rw waits at h in
      rw (waits, keep)
        (closest_waiting-nearest n (i + 1) e at (closer at (s i).from_floor c) s h'.1
          (above at (s i).from_floor c h'.0 g))
  | inr busy ↦ rw busy (closest_waiting-nearest n (i + 1) e at c s (rw busy at h) g)
]

closest_waiting-IsTarget :
    (n i e : ℕ) (at : ℤ) (s : Store)
    → AboveGround (waiting_floors n i e s)
    → IsTarget at (closest_waiting n i e at nowhere s) (waiting_floors n i e s)
unfolding closest_waiting waiting_floors
closest_waiting-IsTarget zero i e at s h = refl
closest_waiting-IsTarget (suc n) i e at s h = elim (Bool-cases (waits_for e (s i))) [
  | inl waits ↦
      let f : ℤ = (s i).from_floor in
      let h' : AboveGround (f ∷ waiting_floors n (i + 1) e s) = rw waits at h in
      let walk : closest_waiting (suc n) i e at nowhere s
          ≡ nearest at f (waiting_floors n (i + 1) e s) =
        rw (scan_waiting_first e at (s i) waits)
          (closest_waiting-nearest n (i + 1) e at f s h'.1 h'.0) in
      subst (λ w. IsTarget at w (waiting_floors (suc n) i e s)) (sym walk)
        (rw waits (nearest-IsClosest at f (waiting_floors n (i + 1) e s)))
  | inr busy ↦
      rw (scan_waiting_busy e at nowhere (s i) busy, busy)
        (closest_waiting-IsTarget n (i + 1) e at s (rw busy at h))
]

-- The floors that an elevator with the riders `xs` chooses from.
unfoldable pub candidates : ℕ → Store → List ℕ → List ℤ
candidates e s [] = waiting_floors passengers 0 e s
candidates e s (x ∷ xs) = goals_of s (x ∷ xs)

-- With more fuel than riders, nothing in `next_wait`, and waiting passengers on floors from 0
-- on, the choice ends and changes nothing but `wait_at`. With riders the target is the goal of
-- one of them, and no goal of another is nearer. With none it is the closest floor of those
-- shown as waiting for the elevator, or -1 if there are none.
pub choose_target-IsTarget :
    (k e : ℕ) (at : ℤ) (info : ElevatorInfo) (s : Store) (xs : List ℕ)
    → Chain (next_of s) info.riding xs
    → length xs < k
    → info.next_wait ≡ nowhere
    → AboveGround (waiting_floors passengers 0 e s)
    → (w : ℤ) × (choose_target k e at info s ≡ ok (record info { wait_at = w }))
      × IsTarget at w (candidates e s xs)
unfolding choose_target candidates
choose_target-IsTarget k e at info s [] c lt n h = (
  closest_waiting passengers 0 e at nowhere s,
  ground arith,
  closest_waiting-IsTarget passengers 0 e at s h,
)
choose_target-IsTarget k e at info s (x ∷ xs) c lt n h = (
  nearest at (s x).to_floor (goals_of s xs),
  ground (arith, closest_rider-nearest k x (s x).to_floor at s xs c.1 (omega arith)),
  nearest-IsClosest at (s x).to_floor (goals_of s xs),
)
