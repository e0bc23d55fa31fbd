-- ===== src/Elevator/Scheduler/Phantom.antt =====
-- Elements of `passengers` that no passenger has filled yet, in the scan of lines 336-346 of
-- hw7-jli230-main/C/hw7.c.
use cs361_projects.Prelude.{
  ℕ, zero, suc, ◌+◌, ◌≤◌, ◌<◌, ◌≡◌, refl, ap, sym, subst, inl, inr, true, ◌&&◌, none, List, [], ◌∷◌,
  arith, ◌==◌, Bool-cases, All,
}
use cs361_projects.Prelude.Int.{ℤ, pos, ◌-ℤ◌, abs}
use cs361_projects.Elevator.Config.{passengers}
use cs361_projects.Elevator.Riding.{Store, ok}
use cs361_projects.Elevator.Scheduler.{
  ElevatorInfo, zero_passenger, nowhere, up, plan, turn_at_ends, aim,
}
use cs361_projects.Elevator.Scheduler.Target.{
  distance, Among, IsTarget, AboveGround, waiting_floors, candidates, choose_target-IsTarget,
}

waiting_floors-Among :
    (n i j e : ℕ) (s : Store)
    → i ≤ j
    → j < i + n
    → (s j).status ≡ 0
    → (s j).elenumber ≡ e
    → Among (s j).from_floor (waiting_floors n i e s)
unfolding waiting_floors
waiting_floors-Among zero i j e s low high w own = absurd (omega arith)
waiting_floors-Among (suc n) i j e s low high w own = elim (Bool-cases (i == j)) [
  | inl here ↦
      let same : i ≡ j = ground arith in
      let waits : (((s i).status == 0) && ((s i).elenumber == e)) ≡ true = rw same (ground arith) in
      rw waits (inl (ap (λ x. (s x).from_floor) (sym same)))
  | inr later ↦
      let rest = waiting_floors-Among n (i + 1) j e s (ground arith) (omega arith) w own in
      elim (Bool-cases (((s i).status == 0) && ((s i).elenumber == e))) [
        | inl waits ↦ rw waits (inr rest)
        | inr busy ↦ rw busy rest
      ]
]

All-Among : (P : ℤ → Type 0) (f : ℤ) (fs : List ℤ) → All P fs → Among f fs → P f
All-Among P f [] h m = absurd m
All-Among P f (g ∷ fs) h (inl e) = rw e (h.0)
All-Among P f (g ∷ fs) h (inr m) = All-Among P f fs h.1 m

same_floor : (at w : ℤ) → distance at w ≤ distance at at → w ≡ at
unfolding abs ◌-ℤ◌
same_floor at w h = ground arith

IsTarget-here : (at w : ℤ) (fs : List ℤ) → IsTarget at w fs → Among at fs → w ≡ at
IsTarget-here at w [] t m = absurd m
IsTarget-here at w (f ∷ fs) t m =
    same_floor at w (All-Among (λ g. distance at w ≤ distance at g) at (f ∷ fs) t.1 m)

-- While some element of `passengers` is as static storage has it, and no one waits for
-- elevator 0 below floor 0: elevator 0 on floor 0, with no riders, nothing in `next_wait` and
-- some fuel, plans to stop on that floor, as if somebody waited there.
pub plan-phantom :
    (k i : ℕ) (info : ElevatorInfo) (s : Store)
    → 0 < k
    → i < passengers
    → s i ≡ zero_passenger
    → info.riding ≡ none
    → info.next_wait ≡ nowhere
    → AboveGround (waiting_floors passengers 0 0 s)
    → plan k 0 (pos 0) info s ≡ ok (record info { wait_at = pos 0; elevator_direction = up })
unfolding plan turn_at_ends aim candidates
plan-phantom k i info s enough lt unused empty nobody above =
    let turned : ElevatorInfo = record info { elevator_direction = up } in
    let (w, done, target) =
      choose_target-IsTarget k 0 (pos 0) turned s [] empty enough nobody above in
    let call : Among (pos 0) (waiting_floors passengers 0 0 s) =
      subst (λ f. Among f (waiting_floors passengers 0 0 s)) (ap (λ x. x.from_floor) unused)
        (waiting_floors-Among passengers 0 i 0 s (omega arith) (omega (arith, lt))
          (ap (λ x. x.status) unused) (ap (λ x. x.elenumber) unused)) in
    let stop : w ≡ pos 0 = IsTarget-here (pos 0) w (waiting_floors passengers 0 0 s) target call in
    rw (plan, done, stop) refl
