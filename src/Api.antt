-- ===== src/Api.antt =====
-- server/app/routers: the REST API. Each router has its module; `Permission` is the check that they
-- share.
pub mod Permission
pub mod Commands
pub mod Gateways
pub mod Channels
pub mod Assets
pub mod TelemetryQuery
