-- ===== src/Runs.antt =====
-- services/runs.py: the reservation of devices for a run, and the status of a run.
pub mod Create
pub mod Loop
pub mod Reserve
pub mod Requested
pub mod Status
pub mod Read
