-- ===== src/Http.antt =====
-- The HTTP plugin (server_plugin/http).
pub mod Piece
pub mod Request
pub mod Parser
pub mod Header
pub mod Response
pub mod Handler
pub mod Contract
pub mod Stream
pub mod Exchange
pub mod Conversation
pub mod Plugin
