-- ===== src/Elevator/System/Progress.antt =====
-- hw7-jli230-main/C: how the threads get on. From a state with somebody on board the elevator's thread
-- and that of a passenger, with no other in between, can bring this passenger to her floor.
pub mod Alone
pub mod Asked
pub mod Together
pub mod Deliver
