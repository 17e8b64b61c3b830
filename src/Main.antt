-- ===== src/Main.antt =====
-- `main` (main.cpp): the command line, the log, the plugins and the server in one process. What the
-- server and the loader log, and what `PrintUsage` and `perror` write to the terminal, is left out.
pub mod Safe
use mod_server.Prelude.{
  ℕ, zero, suc, Bool, true, false, not, Option, none, some, List, [], ◌∷◌, leb, if◌then◌else◌,
  Bytes, length, get_or,
}
use mod_server.Prelude.Int.{ℤ, pos, negsuc}
use mod_server.Prelude.Fault.{Result, ok, fault, ◌>>=◌}
use mod_server.Prelude.Text.{codes}
use mod_server.PluginApi.Log.{err, host_log}
use mod_server.PluginApi.Handler.{ProtocolHandler}
use mod_server.Base.CommandLine.{CommandLine, init, for_current_process, has_switch, switch_value}
use mod_server.Base.Folder.{FileSystem}
use mod_server.Base.Logger.{Logs, log_text, uninit_log}
use mod_server.Base.Logger.Start.{Tm, init_log}
use mod_server.Base.SystemInfo.{System}
use mod_server.Plugins.{Linker, DynamicPlugin, load_plugins}
use mod_server.Plugins.Calls.{
  Exported, plugin_name, initialize, plugin_port, plugin_sock_type, new_protocol_handler,
}
use mod_server.Socket.Net.{Net}
use mod_server.Socket.TcpSocket.{is_zero, init_sockets}
use mod_server.Server.Store.{Server, new_server}
use mod_server.Server.PluginCalls.{PluginCalls}
use mod_server.Server.Loop.{Select, Outcome, again, stop}
use mod_server.Server.Run.{run}

-- The process ended with a code, or the loop of the server goes on.
pub data Ended (W H : Type 0) : Type 0 where
  exit : ℕ → Logs → W → Ended W H
  running : Logs → W → Server H → Ended W H

-- What surrounds the process: files, the dynamic linker and what the libraries do, the system's data,
-- the clock, the files that can be opened, and the memory of new end points.
pub record Host (W H L : Type 0) : Type 0 where
  pub fs : FileSystem
  pub linker : Linker L
  pub exported : Exported L H
  pub sys : System
  pub opens : Bytes → Bool
  pub now : Tm
  pub raw : Bytes
  pub select : Select W

-- The numbers of the plugins in the loader's list.
abbrev pub upto : ℕ → ℕ → List ℕ
upto zero from = []
upto (suc n) from = from ∷ upto n (suc from)

module _ {W H L : Type 0} (net : Net W) (ops : ProtocolHandler H) (host : Host W H L) where
  open host use {fs, linker, exported, sys, opens, now, raw, select}

  -- The plugin of a number. The server asks only for the numbers of plugins that there are.
  abbrev pub plugin_of : List (DynamicPlugin L) → ℕ → DynamicPlugin L
  plugin_of [] i = record { m_lib = none }
  plugin_of (p ∷ plugins) i = get_or (p ∷ plugins) i p

  -- The calls of the server on the loaded plugins, each of which was given the host's log.
  abbrev pub calls_of : List (DynamicPlugin L) → PluginCalls H
  calls_of plugins = record {
    name = λ i. plugin_name linker exported (plugin_of plugins i);
    initialize = λ i. initialize linker exported host_log (plugin_of plugins i) none;
    port = λ i. plugin_port linker exported (plugin_of plugins i);
    sock_type = λ i. plugin_sock_type linker exported (plugin_of plugins i);
    new_protocol_handler =
        λ i. (do h ← new_protocol_handler linker exported (plugin_of plugins i); ok (some h));
  }

  -- Behind `Run`: the sockets, then the log.
  unfoldable pub after_run : Logs → Outcome W H → Ended W H
  after_run logs (stop w srv) = exit 0 (uninit_log logs) w
  after_run logs (again w srv) = running logs w srv

  -- Behind `server.LoadPlugins`: `server.Run` over as many rounds as are given, or the refusal.
  unfoldable pub with_plugins :
      Option CommandLine → ℕ → Logs → W → Bool × List (DynamicPlugin L) → Result (Ended W H)
  with_plugins process rounds logs w (true, plugins) = do
    o ←
        run net ops (calls_of plugins) raw process (upto (length plugins) 0) rounds select w
          new_server
    ok (after_run logs o)
  with_plugins process rounds logs w (false, plugins) = do
    logs' ← log_text err (codes "No plugins were loaded, exiting.") logs
    ok (exit 0 (uninit_log logs') w)

  -- The block of the server.
  unfoldable pub serve : Option CommandLine → Bytes → ℕ → Logs → W → Result (Ended W H)
  serve process plugins_path rounds logs w =
      with_plugins process rounds logs w (load_plugins linker fs plugins_path [])

  -- `pluginsPath`.
  unfoldable pub plugins_path : CommandLine → Bytes
  plugins_path cl =
      if has_switch cl (codes "pluginsFolder")
      then switch_value cl (codes "pluginsFolder")
      else codes "."

  -- Behind `InitLog`.
  unfoldable pub with_log :
      Option CommandLine → CommandLine → ℕ → W → Bool × Logs → Result (Ended W H)
  with_log process cl rounds w (false, logs) = ok (exit 1 logs w)
  with_log process cl rounds w (true, logs) =
      let served = serve process (plugins_path cl) rounds logs w in
      let no_sockets = (do
        logs' ← log_text err (codes "Sockets were not initialized.") logs
        ok (exit 0 (uninit_log logs') w)) in
      let no_address = (do
        logs' ← log_text err (codes "Please specify server IP\n") logs
        ok (exit 1 logs' w)) in
      if not (has_switch cl (codes "serverIp"))
      then no_address
      else if is_zero init_sockets
      then served
      else no_sockets

  -- Behind `CommandLine::Init`.
  unfoldable pub with_command_line : ℕ → Logs → W → Bool × Option CommandLine → Result (Ended W H)
  with_command_line rounds logs w (false, process) = ok (exit 1 logs w)
  with_command_line rounds logs w (true, process) = do
    cl ← for_current_process process
    opened ← init_log sys opens now (has_switch cl (codes "logToFile")) logs
    with_log process cl rounds w opened

  -- `argc <= 1`.
  abbrev pub no_arguments : ℤ → Bool
  no_arguments (pos n) = leb n 1
  no_arguments (negsuc n) = true

  -- `main`, from the start of the process, where neither a command line nor a logger is there.
  unfoldable pub main : ℤ → Option (List Bytes) → ℕ → Logs → W → Result (Ended W H)
  main argc argv rounds logs w =
      let goes_on = (do parsed ← init none argc argv; with_command_line rounds logs w parsed) in
      if no_arguments argc then ok (exit 1 logs w) else goes_on
