-- ===== src/Peer.antt =====
-- pkg/pipeline/peer: the connectors between which the pipelines carry change events.
pub mod Mqtt
pub mod Postgres
pub mod Nats
pub mod Webhook
mod Examples
