-- ===== src/Otp.antt =====
-- One-time passwords: app/modules/otp.
pub mod Values
pub mod Store
pub mod UseCases
mod Examples
