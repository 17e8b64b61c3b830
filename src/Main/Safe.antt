-- ===== src/Main/Safe.antt =====
-- The process as a whole faults nowhere.
use mod_server.Prelude.{◌≡◌, ◌⊎◌, none, List, [], Bytes}
use mod_server.PluginApi.Handler.{ProtocolHandler, HandlerLaws}
use mod_server.Base.CommandLine.{CommandLine, init_from_string_vec}
use mod_server.Plugins.{DynamicPlugin}
use mod_server.Socket.Net.{Net, NetLaws}
use mod_server.Server.FdSet.{FdSet}
use mod_server.Server.Valid.{IsValid}
use mod_server.Main.{Ended, exit, running}

-- The command line of these arguments.
abbrev pub parsed : List Bytes → CommandLine
parsed params = init_from_string_vec params (record { m_switches = [] })

abbrev none_loaded : {L : Type 0} → DynamicPlugin L
none_loaded = record { m_lib = none }

module _ {W H : Type 0} {net : Net W} {ops : ProtocolHandler H} (nl : NetLaws net)
    (hl : HandlerLaws ops) where
  -- The process has ended, with code 0 and without a logger or with code 1, or its server is valid.
  abbrev pub IsFine : Ended W H → Type 0
  IsFine (exit code logs w) = ((code ≡ 0) × (logs.m_logger ≡ none)) ⊎ (code ≡ 1)
  IsFine (running logs w srv) = IsValid nl hl w srv
