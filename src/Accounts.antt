-- ===== src/Accounts.antt =====
-- What users, permissions and authentication share: the entities, the tables and the caches.
pub mod Values
pub mod Site
