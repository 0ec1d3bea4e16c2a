-- ===== src/Replication.antt =====
-- pkg/pglogrepl: change events from PostgreSQL's logical replication.
pub mod Config
pub mod Publication
pub mod Messages
pub mod Stream
pub mod Setup
mod Examples
