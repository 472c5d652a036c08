-- ===== src/Execution.antt =====
-- services/execution.py: a worker claims a job, calls its device, and records the outcome.
pub mod Claim
pub mod Claimed
pub mod Report
pub mod Reported
pub mod Settled
pub mod Ends
pub mod Execute
