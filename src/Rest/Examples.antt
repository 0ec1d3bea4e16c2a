-- ===== src/Rest/Examples.antt =====
-- Tests and witnesses of pkg/rest.
pub mod Data
mod Filters
mod Statements
mod Calls
