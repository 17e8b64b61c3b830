-- ===== src/Server.antt =====
-- The server's core (server_core).
pub mod IpEndPoint
pub mod FdSet
pub mod Session
pub mod Store
pub mod Loop
pub mod Valid
pub mod Failures
pub mod PluginCalls
pub mod Startup
pub mod Run
pub mod Delivery
