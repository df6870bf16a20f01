-- ===== src/Tests.antt =====
-- Tests on concrete inputs, and the theorems applied to them.
pub mod Frames
pub mod Accounts
pub mod Records
pub mod Queues
pub mod Routes
pub mod Timers
pub mod Offers
pub mod Clocks
