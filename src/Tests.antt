-- ===== src/Tests.antt =====
-- The theorems at concrete inputs.
pub mod System
pub mod Lists
pub mod Sched
pub mod Board
pub mod Calls
pub mod Devices
pub mod Start
pub mod Turns
pub mod Life
pub mod Sleep
pub mod Ports
pub mod Queues
pub mod Sound
