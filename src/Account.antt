-- ===== src/Account.antt =====
-- Accounts: registration, verification codes, lockout and sign-in.
pub mod Data
pub mod Users
pub mod Codes
pub mod Registration
pub mod Machine
pub mod SignIn
pub mod Jwt
pub mod Sessions
mod Tests
