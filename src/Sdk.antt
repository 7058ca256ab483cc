-- ===== src/Sdk.antt =====
-- The client library of the service, sdk/.
pub mod Failure
pub mod Options
pub mod Call
pub mod Client
pub mod Paths
pub mod Endpoints
pub mod Exchange
