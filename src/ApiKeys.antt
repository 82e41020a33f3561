-- ===== src/ApiKeys.antt =====
-- The API keys of customers, for machines that sign in without a user.
pub mod Data
pub mod Service
pub mod Scopes
pub mod Lifetime
mod Tests
