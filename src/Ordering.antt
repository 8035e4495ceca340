-- ===== src/Ordering.antt =====
-- The ordering module: app/modules/ordering.
pub mod StateMachine
pub mod Jobs
pub mod Models
pub mod Repository
pub mod UseCases
mod Examples
