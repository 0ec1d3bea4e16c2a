-- ===== src/Peer/Mqtt.antt =====
-- pkg/pipeline/peer/mqtt: events as messages of an MQTT broker.
pub mod Topics
pub mod Filters
pub mod Subscribe
pub mod RoundTrip
