-- ===== src/Tests/Host.antt =====
-- A process on a concrete host, with one plugin.
use mod_server.Prelude.{
  ℕ, ◌*◌, ◌^◌, ◌≡◌, refl, true, none, some, [], ◌∷◌, ◌++◌, ltb→lt, replicate, Bytes, All,
}
use mod_server.Prelude.Int.{pos}
use mod_server.Prelude.Text.{codes}
use mod_server.PluginApi.Log.{host_log}
use mod_server.PluginApi.Plugin.{tcp}
use mod_server.Base.Logger.{Logs}
use mod_server.Base.Logger.Laws.{Fits}
use mod_server.Base.SystemInfo.{System}
use mod_server.Http.Handler.{HttpHandler, new_handler}
use mod_server.Plugins.{load_plugins}
use mod_server.Plugins.Calls.{Exported, NameLaws, Answers, load_plugins-Answers}
use mod_server.Main.{Host}
use mod_server.Tests.Plugins.{files, libraries}
use mod_server.Tests.System.{quiet_select}

abbrev http_exports : Exported ℕ HttpHandler
http_exports = record {
  default_port = λ lib. 8080;
  socket_type = λ lib. tcp;
  new_handler = λ lib. new_handler;
  name_written = λ lib size. codes "HTTP" ++ (0 ∷ []);
}

http_names : NameLaws libraries http_exports
http_names = record {
  text = λ lib. codes "HTTP";
  no_nul = λ lib. (refl, (refl, (refl, (refl, tt))));
  is_terminated = λ lib. refl;
  fits = λ lib. ltb→lt 4 256 refl;
}

load_plugins-Answers_example :
    All
      (Answers libraries http_exports http_names host_log)
      (load_plugins libraries files (codes "plugins") []).1
load_plugins-Answers_example =
    load_plugins-Answers libraries http_exports http_names host_log files (codes "plugins")

abbrev pub small_system : System
small_system = record {
  sysname = some (codes "Linux");
  machine = some (codes "x86_64");
  version_file = some (codes "#1 SMP\n");
  phys_pages = pos 4096;
  avphys_pages = pos 1024;
  page_size = pos 4096;
  errno = 0;
}

abbrev small_host : Host ℕ HttpHandler ℕ
small_host = record {
  fs = files;
  linker = libraries;
  exported = http_exports;
  sys = small_system;
  opens = λ name. true;
  now = record { tm_mday = 5; tm_mon = 2; tm_year = 114; tm_hour = 9; tm_min = 30 };
  raw = replicate 20 7;
  select = quiet_select;
}

pub phys-Fits : Fits small_system (pos 4096)
phys-Fits a b ea eb =
    let is_a : 4096 ≡ a = cc in
    let is_b : 4096 ≡ b = cc in rw (← is_a, ← is_b) (ltb→lt (4096 * 4096) (2 ^ 63) refl)

pub avphys-Fits : Fits small_system (pos 1024)
avphys-Fits a b ea eb =
    let is_a : 1024 ≡ a = cc in
    let is_b : 4096 ≡ b = cc in rw (← is_a, ← is_b) (ltb→lt (1024 * 4096) (2 ^ 63) refl)

abbrev address : Bytes
address = codes "-serverIp=127.0.0.1"

abbrev pub no_log : Logs
no_log = record { m_logger = none; written = [] }
