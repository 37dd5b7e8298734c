-- ===== src/Tests.antt =====
-- Concrete inputs on which the theorems are applied, a module for each part of the program.
pub mod Records
pub mod Expressions
pub mod Indexes
pub mod Servers
pub mod Drivers
pub mod Stagings
pub mod Names
pub mod Exchanges
pub mod Sessions
pub mod Descriptors
pub mod Batches
