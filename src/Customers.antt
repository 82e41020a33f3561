-- ===== src/Customers.antt =====
-- The hierarchy of customers: services/CustomerService.ts over repositories/CustomerRepository.ts.
pub mod Data
pub mod Rows
pub mod Service
pub mod Places
pub mod Tree
pub mod Moves
pub mod Descendants
pub mod Stale
pub mod Ancestors
mod Tests
