-- ===== src/Elevator.antt =====
-- hw7-jli230-main/C: an elevator simulation.
pub mod Config
pub mod Riding
pub mod Enforcer
pub mod Scheduler
pub mod System
pub mod Threads
pub mod Display
mod Examples
