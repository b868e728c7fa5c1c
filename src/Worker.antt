-- ===== src/Worker.antt =====
-- src/worker/mod.rs: background jobs with a key each, of which the latest wins.
pub mod Job
pub mod Lane
pub mod Runtime
pub mod Threads
pub mod Load
pub mod Slot
pub mod Sizes
pub mod Started
pub mod Submits
pub mod Pumps
pub mod Events
pub mod Steps
pub mod Delivery
pub mod Submission
pub mod Polling
pub mod Waiting
pub mod History
