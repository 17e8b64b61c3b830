-- ===== src/PluginApi.antt =====
-- The interface between the server and its plugins (plugin_api).
pub mod Log
pub mod DataChunk
pub mod Handler
pub mod Plugin
