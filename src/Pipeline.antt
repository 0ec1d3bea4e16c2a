-- ===== src/Pipeline.antt =====
-- pkg/pipeline: change events from sources, transformed on their way to sinks.
pub mod Cdc
pub mod Transform
pub mod Manager
pub mod Process
pub mod Setup
mod Examples
