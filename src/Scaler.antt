-- ===== src/Scaler.antt =====
-- internal/scaler: the loop that converges the runners of a scale set on the demand.
pub mod Config
pub mod Runner
pub mod World
pub mod Teardown
pub mod Mark
pub mod Sound
pub mod Names
pub mod Handler
pub mod Provision
pub mod Capacity
pub mod Observe
pub mod Reconcile
pub mod Run
pub mod Create
