-- ===== src/Authorization.antt =====
-- Authorization: roles, policies, role assignments, and the evaluation of permissions
-- (services/AuthorizationService.ts and the repositories that it works on).
pub mod Data
pub mod Tables
pub mod Requests
pub mod Rows
pub mod Matching
pub mod Evaluation
pub mod Effective
pub mod Service
mod Tests
pub use Data.*
