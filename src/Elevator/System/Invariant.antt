-- ===== src/Elevator/System/Invariant.antt =====
-- What holds between any two sections: for each elevator the list of its riders, the passenger who
-- has taken the turn that the open door offers, if any, and how the two records of the elevator,
-- that of hw7.c and that of main.c, belong together.
mod Defs
mod Checks
mod Turns
mod Lists
mod Others
mod Lifts
mod Trips
pub use Defs.*
pub use Checks.*
pub use Turns.{held, offered, only-actor, taken}
pub use Lists.{SameOthers}
pub use Others.*
pub use Trips.{Trip-Fine}
pub use Lifts.{Lift-Fine, goals-InBuilding, waiting-InBuilding, nobody}
