-- ===== src/Elevator/System/Invariant/Turns.antt =====
-- What becomes of the parts of the invariant when one passenger moves on.
use cs361_projects.Prelude.{
  ℕ, ◌≡◌, refl, ap, inl, inr, Bool-cases, Bool, true, false, Option, none, some, List, arith, ◌==◌,
}
use cs361_projects.Prelude.Int.{ℤ}
use cs361_projects.Prelude.Links.{Ptr, update, Chain-frame}
use cs361_projects.Elevator.Riding.{Store, next_of}
use cs361_projects.Elevator.Enforcer.{Car, Rider}
use cs361_projects.Elevator.Scheduler.{ElevatorInfo, elevator_of}
use cs361_projects.Elevator.Scheduler.Direction.{InBuilding}
use cs361_projects.Elevator.System.Steps
use cs361_projects.Elevator.System.Invariant.Defs.{
  is_holding, inside_count, inside_after, busy, aboard, Riders, Turn, People, Floors, Person, Cabin,
}

-- Floor and number of riders matter only to those who have the turn.
pub Person-idle :
    (e : ℕ) (floor floor' : ℤ) (n n' : ℕ) (rider : Rider) (pc : Steps.PassengerPc)
    → busy pc ≡ false
    → Person e floor n rider pc
    → Person e floor' n' rider pc
Person-idle e floor floor' n n' rider Steps.resting idle h = h
Person-idle e floor floor' n n' rider Steps.calling idle h = h
Person-idle e floor floor' n n' rider Steps.hailing idle h = h
Person-idle e floor floor' n n' rider Steps.riding idle h = h
Person-idle e floor floor' n n' rider Steps.returned idle h = h
Person-idle e floor floor' n n' rider pc idle h = cc idle

-- While one passenger of an elevator has the turn, no other has it.
pub only-actor :
    {ready given : Bool} {lift : Steps.ElevatorPc} {actor : Option ℕ} (p q : ℕ)
    (trips : ℕ → Steps.PassengerPc)
    → Turn (elevator_of p) ready given lift trips actor
    → busy (trips p) ≡ true
    → (p == q) ≡ false
    → elevator_of q ≡ elevator_of p
    → busy (trips q) ≡ false
only-actor {actor = none} p q trips t on other same = absurd (ground (arith, t.acting p))
only-actor {actor = some r} p q trips t on other same = ground (arith, t.acting p, t.acting q)

module _ (p : ℕ) (pc' : Steps.PassengerPc) (trips : ℕ → Steps.PassengerPc) where
  abbrev e : ℕ
  e = elevator_of p

  abbrev trips' : ℕ → Steps.PassengerPc
  trips' = update trips p pc'

  pub Riders-same :
      {riding : Ptr} {count : ℤ} {store : Store} {xs : List ℕ} (store' : Store)
      → aboard pc' ≡ aboard (trips p)
      → ((q : ℕ) → next_of store' q ≡ next_of store q)
      → Riders e riding count store trips xs
      → Riders e riding count store' trips' xs
  Riders-same {riding} {store} {xs} store' same links r = record {
    chain = Chain-frame (next_of store) (next_of store') riding xs r.chain (λ q m. links q);
    distinct = r.distinct;
    few = r.few;
    counted = r.counted;
    members = λ q. ground (arith, r.members q);
    loose = λ q off. ground (arith, r.loose q, links q);
  }

  -- The passenger neither takes nor gives back the turn.
  pub Turn-same :
      {ready given : Bool} {lift : Steps.ElevatorPc} {actor : Option ℕ}
      → busy pc' ≡ busy (trips p)
      → Turn e ready given lift trips actor
      → Turn e ready given lift trips' actor
  Turn-same same t = record { acting = λ q. ground (arith, t.acting q); single = t.single }

  -- She takes the turn that the elevator offers.
  pub Turn-take :
      {given : Bool} {lift : Steps.ElevatorPc} {actor : Option ℕ}
      → busy (trips p) ≡ false
      → busy pc' ≡ true
      → Turn e true given lift trips actor
      → Turn e false given lift trips' (some p)
  Turn-take {actor = none} off on t = record {
    acting = λ q. ground (arith, t.acting q);
    single = ground (arith, t.single);
  }
  Turn-take {actor = some q} off on t = absurd (ground (arith, t.single))

  -- She gives it back.
  pub Turn-give :
      {ready given : Bool} {lift : Steps.ElevatorPc} {actor : Option ℕ}
      → busy (trips p) ≡ true
      → busy pc' ≡ false
      → Turn e ready given lift trips actor
      → Turn e ready true lift trips' none
  Turn-give {actor = none} on off t = absurd (ground (arith, t.acting p))
  Turn-give {actor = some q} on off t = record {
    acting = λ r. ground (arith, t.acting p, t.acting r);
    single = ground (arith, t.single);
  }

  pub People-same :
      (floor : ℤ) (n : ℕ) (riders : ℕ → Rider) (rider : Rider)
      → Person e floor n rider pc'
      → People e floor n riders trips
      → People e floor n (update riders p rider) trips'
  People-same floor n riders rider h people q on = elim (Bool-cases (p == q)) [
    | inl self ↦ rw self h
    | inr other ↦ rw other (people q on)
  ]

  pub Floors-same :
      {store : Store} {riders : ℕ → Rider} (rider : Rider)
      → InBuilding rider.from_floor
      → InBuilding rider.to_floor
      → Floors store riders
      → Floors store (update riders p rider)
  Floors-same rider from to f = record { stored = f.stored; asked = λ q. ground (arith, f.asked q) }

  -- Both records count her alike before and after.
  pub inside-same :
      (actor : Option ℕ) (n : ℕ)
      → inside_after pc' n ≡ inside_after (trips p) n
      → inside_count trips' actor n ≡ inside_count trips actor n
  inside-same none n same = refl
  inside-same (some q) n same = ground arith

  -- The number of riders matters only to the passenger who has the turn.
  pub People-count :
      (floor : ℤ) (n n' : ℕ) (riders : ℕ → Rider) (rider : Rider) {ready given : Bool}
      {lift : Steps.ElevatorPc} {actor : Option ℕ}
      → busy (trips p) ≡ true
      → Turn e ready given lift trips actor
      → Person e floor n' rider pc'
      → People e floor n riders trips
      → People e floor n' (update riders p rider) trips'
  People-count floor n n' riders rider on t h people q mine = elim (Bool-cases (p == q)) [
    | inl self ↦ rw self h
    | inr other ↦ rw other (
        Person-idle e floor floor n n' (riders q) (trips q) (only-actor p q trips t on other mine)
          (people q mine))
  ]

-- An elevator that offers the turn waits with its door open, and so does one whose turn is taken.
pub held :
    (info : ElevatorInfo) (car : Car) (lift : Steps.ElevatorPc)
    → is_holding lift ≡ true
    → Cabin info car lift
    → (car.is_open ≡ true) × (info.elevator_floor ≡ car.floor)
held info car (Steps.holding at) h c = (c.door, c.place.1)
held info car lift h c = cc h

pub Cabin-count :
    (info : ElevatorInfo) (car : Car) (lift : Steps.ElevatorPc) (count : ℤ) (trips : ℕ)
    → is_holding lift ≡ true
    → Cabin info car lift
    → Cabin info (record car { passengers = count; trips = trips }) lift
Cabin-count info car (Steps.holding at) count trips h c = record {
  door = c.door;
  here = c.here;
  direction = c.direction;
  no_next = c.no_next;
  place = c.place;
}
Cabin-count info car lift count trips h c = cc h

-- An offered turn is nobody's yet.
pub offered :
    {e : ℕ} {given : Bool} {lift : Steps.ElevatorPc} {trips : ℕ → Steps.PassengerPc}
    {actor : Option ℕ}
    → Turn e true given lift trips actor
    → (is_holding lift ≡ true) × (actor ≡ none)
offered {actor = none} t = (ground (arith, t.single), refl)
offered {actor = some q} t = absurd (ground (arith, t.single))

-- Who has the turn is the one that both records may count differently.
pub taken :
    {ready given : Bool} {lift : Steps.ElevatorPc} {trips : ℕ → Steps.PassengerPc}
    {actor : Option ℕ} (p n : ℕ)
    → Turn (elevator_of p) ready given lift trips actor
    → busy (trips p) ≡ true
    → (is_holding lift ≡ true) × (inside_count trips actor n ≡ inside_after (trips p) n)
taken {actor = none} p n t on = absurd (ground (arith, t.acting p))
taken {trips} {actor = some q} p n t on =
    let self : q ≡ p = ground (arith, t.acting p) in
    (ground (arith, t.single), ap (λ r. inside_after (trips r) n) self)
