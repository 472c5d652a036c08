-- ===== src/Tests.antt =====
-- Concrete runs of the program, and the theorems applied to them.
mod Scenario
mod Outcomes
mod Control
mod Command
mod Services
mod Edges
mod Recovery
mod Pages
