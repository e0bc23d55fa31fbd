-- ===== src/Elevator/Scheduler/Direction.antt =====
-- The direction that `elevator_ready` takes: lines 298-301 and 368-373 of hw7-jli230-main/C/hw7.c,
-- and the whole of its planning.
use cs361_projects.Prelude.{ℕ, ◌+◌, ◌<◌, ◌≡◌, ◌≢◌, ◌⊎◌, inl, inr, List, [], ◌∷◌, arith, length, All}
use cs361_projects.Prelude.Int.{ℤ, pos, ◌+ℤ◌, ◌-ℤ◌, abs, ◌≤ℤ◌, ◌<ℤ◌}
use cs361_projects.Prelude.Links.{Chain}
use cs361_projects.Elevator.Config.{floors, passengers}
use cs361_projects.Elevator.Riding.{Store, next_of, ok}
use cs361_projects.Elevator.Scheduler.{ElevatorInfo, nowhere, up, down, turn_at_ends, aim, plan}
use cs361_projects.Elevator.Scheduler.Target.{
  distance, Among, IsTarget, AboveGround, waiting_floors, candidates, choose_target-IsTarget,
}

abbrev pub InBuilding : ℤ → Type 0
InBuilding f = (pos 0 ≤ℤ f) × (f <ℤ pos floors)

abbrev pub IsDirection : ℤ → Type 0
IsDirection d = (d ≡ up) ⊎ (d ≡ down)

-- The target is -1, or a floor.
abbrev pub IsStop : ℤ → Type 0
IsStop w = (w ≡ nowhere) ⊎ InBuilding w

-- The direction after both adjustments, for the target `w`.
heading : ℤ → ℤ → ElevatorInfo → ℤ
unfolding aim turn_at_ends
heading at w info =
    let d : ℤ = turn_at_ends at info.elevator_direction in
    (aim at (record info { elevator_direction = d; wait_at = w })).elevator_direction

heading-InBuilding :
    (at w : ℤ) (info : ElevatorInfo)
    → InBuilding at
    → IsDirection info.elevator_direction
    → IsStop w
    → IsDirection (heading at w info) × InBuilding (at +ℤ heading at w info)
unfolding heading ◌+ℤ◌
heading-InBuilding at w info b d t = ground arith

either : (a b : ℤ) → b ≢ a → (a <ℤ b) ⊎ (b <ℤ a)
either a b n = ground arith

module _ (at w : ℤ) (info : ElevatorInfo) (here : InBuilding at)
    (d : IsDirection info.elevator_direction) (stop : InBuilding w) where
  heading-up : at <ℤ w → heading at w info ≡ up
  unfolding heading
  heading-up above = ground arith

  heading-down : w <ℤ at → heading at w info ≡ down
  unfolding heading
  heading-down below = ground arith

distance-up : (at w : ℤ) → at <ℤ w → distance (at +ℤ up) w + 1 ≡ distance at w
unfolding abs ◌+ℤ◌ ◌-ℤ◌
distance-up at w h = ground arith

distance-down : (at w : ℤ) → w <ℤ at → distance (at +ℤ down) w + 1 ≡ distance at w
unfolding abs ◌+ℤ◌ ◌-ℤ◌
distance-down at w h = ground arith

-- One floor on towards the target, if it is another floor.
reached : (w at : ℤ) → (w ≡ at) ⊎ (w ≢ at)
reached w at = ground arith

heading_progress :
    (at w : ℤ) (info : ElevatorInfo)
    → InBuilding at
    → IsDirection info.elevator_direction
    → InBuilding w
    → w ≢ at
    → distance (at +ℤ heading at w info) w + 1 ≡ distance at w
heading_progress at w info b d t n = elim (either at w n) [
  | inl above ↦ rw (heading-up at w info b d t above) (distance-up at w above)
  | inr below ↦ rw (heading-down at w info b d t below) (distance-down at w below)
]

pub Among-InBuilding : (w : ℤ) (fs : List ℤ) → Among w fs → All InBuilding fs → InBuilding w
Among-InBuilding w [] m h = absurd m
Among-InBuilding w (f ∷ fs) (inl e) h = rw e (h.0)
Among-InBuilding w (f ∷ fs) (inr m) h = Among-InBuilding w fs m h.1

IsTarget-IsStop : (at w : ℤ) (fs : List ℤ) → IsTarget at w fs → All InBuilding fs → IsStop w
IsTarget-IsStop at w [] t h = inl t
IsTarget-IsStop at w (f ∷ fs) t h = inr (Among-InBuilding w (f ∷ fs) t.0 h)

InBuilding-AboveGround : (fs : List ℤ) → All InBuilding fs → AboveGround fs
InBuilding-AboveGround [] h = tt
InBuilding-AboveGround (f ∷ fs) h = (h.0.0, InBuilding-AboveGround fs h.1)

-- Closer to the target by a floor, unless it is reached or there is none.
abbrev pub Progress : ℤ → ℤ → ℤ → Type 0
Progress at w next = (w ≡ nowhere) ⊎ ((w ≡ at) ⊎ (distance next w + 1 ≡ distance at w))

heading-Progress :
    (at w : ℤ) (info : ElevatorInfo)
    → InBuilding at
    → IsDirection info.elevator_direction
    → IsStop w
    → Progress at w (at +ℤ heading at w info)
heading-Progress at w info b d (inl no_stop) = inl no_stop
heading-Progress at w info b d (inr stop) = elim (reached w at) [
  | inl same ↦ inr (inl same)
  | inr other ↦ inr (inr (heading_progress at w info b d stop other))
]

-- What the planning has settled for elevator `e` with riders `xs` at floor `at`.
abbrev pub Planned : ℕ → ℕ → ℤ → ElevatorInfo → Store → List ℕ → Type 0
Planned k e at info s xs =
    (w : ℤ) × (d : ℤ) × (plan k e at info s
      ≡ ok (record info { wait_at = w; elevator_direction = d }))
    × IsTarget at w (candidates e s xs)
    × IsDirection d
    × InBuilding (at +ℤ d)
    × Progress at w (at +ℤ d)

-- For an elevator on a floor of the building, with a direction, nothing in `next_wait`, more
-- fuel than riders, and candidates and waiting passengers on floors of the building: the
-- planning ends, changes nothing but the target and the direction of its elevator, picks the
-- closest candidate, and heads to a floor of the building that is nearer to the target, unless
-- the target is this floor or there is none.
pub plan_lem :
    (k e : ℕ) (at : ℤ) (info : ElevatorInfo) (s : Store) (xs : List ℕ)
    → Chain (next_of s) info.riding xs
    → length xs < k
    → info.next_wait ≡ nowhere
    → IsDirection info.elevator_direction
    → InBuilding at
    → All InBuilding (waiting_floors passengers 0 e s)
    → All InBuilding (candidates e s xs)
    → Planned k e at info s xs
unfolding plan heading
plan_lem k e at info s xs c lt n d b hw hc =
    let turned : ElevatorInfo = record info {
      elevator_direction = turn_at_ends at info.elevator_direction;
    } in
    let (w, chosen, target) =
      choose_target-IsTarget k e at turned s xs c lt n (InBuilding-AboveGround _ hw) in
    let stop = IsTarget-IsStop at w (candidates e s xs) target hc in
    let (dir, next) = heading-InBuilding at w info b d stop in
    (w, heading at w info, rw chosen, target, dir, next, heading-Progress at w info b d stop)
