-- ===== src/Server/PluginCalls.antt =====
-- What the server calls on the plugins that it hosts (server_plugin/server_plugin.h), each plugin by its
-- place in the loader's list. Plugins/Calls models the calls themselves.
use mod_server.Prelude.{ℕ, ◌≡◌, Option, some, Bytes}
use mod_server.Prelude.Fault.{Result, ok}
use mod_server.PluginApi.Log.{LogFn}
use mod_server.PluginApi.Plugin.{SockType}

-- `initialize` gives what the plugin's `LogFn` is after it; a new handler may be NULL.
pub record PluginCalls (H : Type 0) : Type 0 where
  pub name : ℕ → Result Bytes
  pub initialize : ℕ → Result LogFn
  pub port : ℕ → Result ℕ
  pub sock_type : ℕ → Result SockType
  pub new_protocol_handler : ℕ → Result (Option H)

-- Every call on the plugin returns, and it gives a handler.
pub record IsCallable {H : Type 0} (calls : PluginCalls H) (plugin : ℕ) : Type 0 where
  pub text : Bytes
  pub name_is : calls.name plugin ≡ ok text
  pub log_fn : LogFn
  pub initialize_is : calls.initialize plugin ≡ ok log_fn
  pub number : ℕ
  pub port_is : calls.port plugin ≡ ok number
  pub type_of : SockType
  pub sock_type_is : calls.sock_type plugin ≡ ok type_of
  pub handler : H
  pub handler_is : calls.new_protocol_handler plugin ≡ ok (some handler)
