-- ===== src/Auth.antt =====
-- Tokens and their blacklist: app/modules/auth.
pub mod Tokens
pub mod Guards
pub mod Logout
pub mod Login
pub mod Activation
pub mod Api
mod Examples
