-- ===== src/Server.antt =====
-- The resource server: typescript/packages/server/src.
pub mod Mutex
pub mod Exchange
pub mod Endpoints
pub mod Payload
pub mod State
pub mod Delivery
pub mod Perform
pub mod Decode
pub mod Commit
pub mod Recovery
pub mod Entity
pub mod HttpClient
