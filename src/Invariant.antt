-- ===== src/Invariant.antt =====
-- What holds of the database between two transactions, in four parts. The children say how each
-- part comes through the writes that the services are made of.
pub mod Reserved
pub mod Agrees
pub mod Linked
pub mod Attempts
pub mod Valid
