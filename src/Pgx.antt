-- ===== src/Pgx.antt =====
-- pkg/pgx: the schema cache's data.
pub mod Schema
pub mod Pool
pub mod Crud
pub mod Cache
pub mod OpenApi
pub mod Role
mod Examples
