-- ===== src/Access.antt =====
-- The access bundle of a user, which clients read their permissions from.
pub mod Data
pub mod Build
pub mod Cache
pub mod Service
pub mod Grants
pub mod Formats
pub mod Fresh
pub mod Keys
mod Tests
