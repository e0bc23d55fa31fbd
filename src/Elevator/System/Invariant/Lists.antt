-- ===== src/Elevator/System/Invariant/Lists.antt =====
-- Boarding and leaving, on the list of riders.
use cs361_projects.Prelude.{
  ℕ, ◌<◌, ◌≡◌, refl, true, false, List, [], ◌∷◌, ◌++◌, arith, ◌==◌, length, length-append,
}
use cs361_projects.Prelude.Int.{pos, ◌+ℤ◌, ◌-ℤ◌}
use cs361_projects.Prelude.Links.{
  Ptr, update, has, has-append, Chain-frame, erase, has-erase, Distinct-snoc, Distinct-erase,
  length-erase,
}
use cs361_projects.Elevator.Config.{max_capacity}
use cs361_projects.Elevator.Riding.{Store, next_of, ok}
use cs361_projects.Elevator.Riding.Add.{add_to_list-Chain}
use cs361_projects.Elevator.Riding.Remove.{remove_from_list-Chain}
use cs361_projects.Elevator.Scheduler.{ElevatorInfo, elevator_of, board, leave}
use cs361_projects.Elevator.System.Steps
use cs361_projects.Elevator.System.Steps.{fuel}
use cs361_projects.Elevator.System.Invariant.Defs.{Riders}

-- Links and status apart, the array is as before.
abbrev pub SameFloors : Store → Store → Type 0
SameFloors s s' =
    (q : ℕ) → ((s' q).from_floor ≡ (s q).from_floor) × ((s' q).to_floor ≡ (s q).to_floor)

-- The records of other elevators' passengers are as before.
abbrev pub SameOthers : ℕ → Store → Store → Type 0
SameOthers p s s' = (q : ℕ) → (elevator_of q == elevator_of p) ≡ false → s' q ≡ s q

module _ (p : ℕ) (info : ElevatorInfo) (store : Store) (trips : ℕ → Steps.PassengerPc) (xs : List ℕ)
    (r : Riders (elevator_of p) info.riding info.passenger_count store trips xs) where
  pub board-Riders :
      trips p ≡ Steps.boarding
      → length xs < max_capacity
      → (head : Ptr) × (store' : Store) × (board fuel p info store
          ≡ ok (
            record info {
              passenger_count = info.passenger_count +ℤ pos 1;
              riding = head;
              is_passenger_ready = true;
            },
            store',
          ))
        × Riders
            (elevator_of p)
            head
            (info.passenger_count +ℤ pos 1)
            store'
            (update trips p Steps.riding)
            (xs ++ p ∷ [])
        × SameFloors store store'
        × SameOthers p store store'
  unfolding board ◌+ℤ◌
  board-Riders at room =
      let marked : Store = update store p (record (store p) { status = 1 }) in
      let out : has p xs ≡ false = ground (arith, r.members p) in
      let (head, store', done, chain, links) =
        add_to_list-Chain fuel info.riding p marked xs
          (Chain-frame (next_of store) (next_of marked) info.riding xs r.chain
            (λ q m. ground arith))
          r.distinct out (ground (arith, r.loose p)) (ground (arith, r.few)) in
      (
        head,
        store',
        rw done refl,
        record {
          chain = chain;
          distinct = Distinct-snoc xs p r.distinct out;
          few = omega (arith, length-append xs (p ∷ []));
          counted = ground (arith, r.counted, length-append xs (p ∷ []));
          members = λ q. ground (arith, r.members q, has-append q xs (p ∷ []));
          loose = λ q off. ground (arith, links q, r.members q, r.loose q);
        },
        λ q. ground (arith, links q),
        λ q other. ground (arith, links q, r.members q),
      )

  pub leave-Riders :
      trips p ≡ Steps.leaving
      → (head : Ptr) × (store' : Store) × (leave fuel p info store
          ≡ ok (
            record info {
              passenger_count = info.passenger_count -ℤ pos 1;
              riding = head;
              is_passenger_ready = true;
            },
            store',
          ))
        × Riders
            (elevator_of p)
            head
            (info.passenger_count -ℤ pos 1)
            store'
            (update trips p Steps.returned)
            (erase p xs)
        × SameFloors store store'
        × SameOthers p store store'
  unfolding leave ◌-ℤ◌
  leave-Riders at =
      let on : has p xs ≡ true = ground (arith, r.members p) in
      let (head, store', done, chain, loose', links) =
        remove_from_list-Chain fuel info.riding p store xs r.chain r.distinct on
          (ground (arith, r.few)) in
      (
        head,
        store',
        rw done refl,
        record {
          chain = chain;
          distinct = Distinct-erase p xs r.distinct;
          few = omega (arith, r.few, length-erase p xs on);
          counted = ground (arith, r.counted, length-erase p xs on);
          members = λ q. ground (arith, r.members q, has-erase q p xs r.distinct);
          loose = λ q off. ground (arith, links q, r.members q, r.loose q);
        },
        λ q. ground (arith, links q),
        λ q other. ground (arith, links q, r.members q),
      )
