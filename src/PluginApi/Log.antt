-- ===== src/PluginApi/Log.antt =====
-- Log severities and what is written to a log (plugin_api/plugin_log.h, plugin_log.cpp).
use mod_server.Prelude.{Option, none, some, Bytes}

pub data LogSeverity : Type 0 where
  verbose info warn err : LogSeverity

-- One statement `Log(severity) << text`.
pub record LogLine : Type 0 where
  pub severity : LogSeverity
  pub text : Bytes

-- Where a plugin's line goes: to the host's log, under its severity, or to `std::cerr`.
pub data PluginOutput : Type 0 where
  host_log : LogSeverity → PluginOutput
  std_err : PluginOutput

-- `LogFn`: the function that the host registered, or NULL.
abbrev pub LogFn : Type 0
LogFn = Option (LogSeverity → PluginOutput)

-- `PluginLog`.
unfoldable pub plugin_log : LogFn → LogSeverity → PluginOutput
plugin_log none sev = std_err
plugin_log (some fn) sev = fn sev

-- `RegisterLogFn`: the new value of `LogFn`.
unfoldable pub register_log_fn : (LogSeverity → PluginOutput) → LogFn → LogFn
register_log_fn fn old = some fn
