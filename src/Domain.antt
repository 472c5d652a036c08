-- ===== src/Domain.antt =====
-- models/domain.py: the statuses, the four tables, and the database that holds them.
-- Identifiers (UUIDs) are numbers. A time is a number of microseconds, the resolution of `datetime`
-- and `timedelta`, and so is every duration.
pub mod Json
pub mod Status
pub mod Rows
