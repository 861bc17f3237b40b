-- ===== src/Tests.antt =====
-- Runs of the model at concrete inputs.
mod Fixtures
mod Adoption
mod Control
mod Running
mod Views
mod Settings
mod Process
mod Scaling
mod Teardowns
