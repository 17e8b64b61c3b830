-- ===== src/Http/Plugin.antt =====
-- What the HTTP plugin exports (server_plugin/http/http_plugin.cpp).
use mod_server.Prelude.{ℕ, zero, suc, [], ◌∷◌, ◌++◌, Bytes, take}
use mod_server.Prelude.Int.{ℤ, pos}
use mod_server.Prelude.Text.{codes}
use mod_server.PluginApi.Plugin.{SockType, tcp}
use mod_server.Http.Handler
use mod_server.Http.Handler.{HttpHandler}

-- `SocketType`.
abbrev pub socket_type : SockType
socket_type = tcp

-- `DefaultPort`.
abbrev pub default_port : ℕ
default_port = 8080

-- `NewHandler`.
abbrev pub new_http_handler : HttpHandler
new_http_handler = Handler.new_handler

-- `FreeHandler`.
abbrev pub free_handler : HttpHandler → Unit {0}
free_handler h = tt

-- `GetPluginName`: the result of `snprintf`, and the bytes that it writes.
unfoldable pub get_plugin_name : ℕ → ℤ × Bytes
get_plugin_name zero = (pos 4, [])
get_plugin_name (suc n) = (pos 4, take n (codes "HTTP") ++ 0 ∷ [])
