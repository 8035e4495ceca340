-- ===== src/Core.antt =====
-- Services of app/core that stand by themselves.
pub mod RateLimit
mod Examples
