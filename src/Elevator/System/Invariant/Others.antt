-- ===== src/Elevator/System/Invariant/Others.antt =====
-- A section of one elevator, or of one of its passengers, leaves the other elevators' part of the
-- invariant alone.
use cs361_projects.Prelude.{
  ℕ, ◌≡◌, refl, ap, sym, ◌∙◌, false, ◌&&◌, Option, none, some, List, arith, ◌==◌, length,
}
use cs361_projects.Prelude.Int.{pos}
use cs361_projects.Prelude.Links.{update, Chain-frame}
use cs361_projects.Elevator.Riding.{Store, next_of}
use cs361_projects.Elevator.Enforcer.{Car, Rider}
use cs361_projects.Elevator.Scheduler.{ElevatorInfo, elevator_of}
use cs361_projects.Elevator.System.Steps
use cs361_projects.Elevator.System.Invariant.Defs.{
  inside_count, busy, aboard, is_actor, Floors, CarInv,
}
use cs361_projects.Elevator.System.Invariant.Lists.{SameOthers}

inside-other :
    (e p : ℕ) (pc : Steps.PassengerPc) (trips : ℕ → Steps.PassengerPc) (actor : Option ℕ) (n : ℕ)
    → (elevator_of p == e) ≡ false
    → ((q : ℕ) → (busy (trips q) && (elevator_of q == e)) ≡ is_actor actor q)
    → inside_count (update trips p pc) actor n ≡ inside_count trips actor n
inside-other e p pc trips none n other acting = refl
inside-other e p pc trips (some q) n other acting =
    let apart : (p == q) ≡ false = ground (arith, acting q) in rw apart

-- A passenger of another elevator has made a step.
pub CarInv-other :
    (e p : ℕ) (pc : Steps.PassengerPc) (rider : Rider) (store store' : Store) (riders : ℕ → Rider)
    (trips : ℕ → Steps.PassengerPc) (info : ElevatorInfo) (car : Car) (lift : Steps.ElevatorPc)
    (xs : List ℕ) (actor : Option ℕ)
    → (elevator_of p == e) ≡ false
    → SameOthers p store store'
    → ((q : ℕ) → aboard (update trips p pc q) ≡ false → next_of store' q ≡ none)
    → Floors store' (update riders p rider)
    → CarInv e info car lift store riders trips xs actor
    → CarInv e info car lift store' (update riders p rider) (update trips p pc) xs actor
CarInv-other e p pc rider store store' riders trips info car lift xs actor other same loose floors
      inv =
    record {
      on_list = record {
        chain =
            Chain-frame (next_of store) (next_of store') info.riding xs inv.on_list.chain
              λ q m. ap (λ i. i.next) (same q (ground (arith, inv.on_list.members q)));
        distinct = inv.on_list.distinct;
        few = inv.on_list.few;
        counted = inv.on_list.counted;
        members = λ q. ground (arith, inv.on_list.members q);
        loose = loose;
      };
      turn = record { acting = λ q. ground (arith, inv.turn.acting q); single = inv.turn.single };
      cabin = inv.cabin;
      inside =
          inv.inside
          ∙ ap pos (sym (inside-other e p pc trips actor (length xs) other inv.turn.acting));
      people = λ q on. let apart : (p == q) ≡ false = ground arith in rw apart (inv.people q on);
      floors = floors;
    }
