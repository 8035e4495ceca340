-- ===== src/Users.antt =====
-- Users: app/modules/user.
pub mod Validation
pub mod Repository
pub mod UseCases
pub mod Soundness
pub mod Api
mod Examples
