-- ===== src/PluginApi/Plugin.antt =====
-- What plugins export (plugin_api/plugin.h).
-- Any value but TCP is one that the enumeration does not name.
pub data SockType : Type 0 where
  tcp unnamed : SockType
