-- ===== src/Worker.antt =====
-- server/worker: the MQTT consumer. `Lookups` holds the caches, `Topic` the topic pattern, each
-- handler has its module, and `Dispatch` brings them together.
pub mod Lookups
pub mod Heartbeat
pub mod State
pub mod CommandResponse
pub mod Telemetry
pub mod Topic
pub mod Dispatch
