-- ===== src/Tests.antt =====
-- Runs on concrete inputs, and the theorems at inputs that meet their hypotheses.
mod Jobs
mod Gates
mod Rows
mod References
mod Streams
mod Keys
mod Items
mod Records
mod Trees
mod Views
mod Docks
mod Pages
mod Projections
