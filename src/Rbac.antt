-- ===== src/Rbac.antt =====
-- Roles and permissions: app/modules/rbac.
pub mod Tables
pub mod Repository
pub mod UseCases
pub mod Api
pub mod Coherence
pub mod Membership
mod Examples
