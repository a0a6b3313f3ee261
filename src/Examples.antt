-- ===== src/Examples.antt =====
-- Concrete servers that meet the documented behaviour, and inputs for the examples.
pub mod Catalogs
pub mod Keyspace
pub mod Sorting
pub mod Routes
pub mod Tables
pub mod Inputs
pub mod Sources
