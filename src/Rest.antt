-- ===== src/Rest.antt =====
-- The REST server, pkg/rest.
pub mod Error
pub mod Args
pub mod Arrays
pub mod Filter
pub mod Order
pub mod Headers
pub mod Query
pub mod Server
pub mod Rpc
mod Examples
