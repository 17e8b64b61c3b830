-- ===== src/Server/Run/Safe.antt =====
-- A run of the server from its start faults nowhere.
use mod_server.Base.CommandLine.{CommandLine}
use mod_server.Server.PluginCalls.{PluginCalls}
use mod_server.Socket.Net.{Net}
use mod_server.Server.FdSet.{FdSet}
use mod_server.Server.Store.{Server}
