-- ===== src/Plugins/Calls.antt =====
-- The calls into a plugin's library (server_plugin/server_plugin.cpp) and what the HTTP plugin gives for
-- a name (server_plugin/http/http_plugin.cpp).
use mod_server.Prelude.{
  ℕ, ◌<◌, ◌≡◌, refl, true, false, none, some, [], ◌∷◌, ◌++◌, arith, All-map, append_assoc,
  length-append, Bytes, length, replicate, leb, ◌==◌, if◌then◌else◌, All,
}
use mod_server.Prelude.Fault.{
  Result, ok, fault, bad_write, bad_read, null_pointer, failed_assert, ◌>>=◌,
}
use mod_server.Prelude.Memory.{overlay}
use mod_server.Prelude.Text.{codes}
use mod_server.PluginApi.Plugin.{SockType}
use mod_server.PluginApi.Log.{LogSeverity, PluginOutput, LogFn, register_log_fn}
use mod_server.Base.Folder.{FileSystem}
use mod_server.Plugins.{Linker, DynamicPlugin, load_plugins}
use mod_server.Plugins.Loaded.{IsPlugin, load_plugins-IsPlugin}

-- What the exported functions of a library do when they are called; the name is what `GetPluginName`
-- writes to a buffer of so many bytes.
pub record Exported (L H : Type 0) : Type 0 where
  pub default_port : L → ℕ
  pub socket_type : L → SockType
  pub new_handler : L → H
  pub name_written : L → ℕ → Bytes

abbrev pub name_size : ℕ
name_size = 256

-- `m_lib->…`.
abbrev pub library : {L : Type 0} → DynamicPlugin L → Result L
library plugin = elim plugin.m_lib [ none ↦ fault null_pointer | some lib ↦ ok lib ]

-- `assert(m_lib)`.
abbrev pub asserted_library : {L : Type 0} → DynamicPlugin L → Result L
asserted_library plugin = elim plugin.m_lib [ none ↦ fault failed_assert | some lib ↦ ok lib ]

-- A `std::string` of a buffer: up to the first NUL, which must be in it.
unfoldable pub c_text : Bytes → Result Bytes
c_text [] = fault bad_read
c_text (c ∷ buf) =
    let more = (do rest ← c_text buf; ok (c ∷ rest)) in if c == 0 then ok [] else more

-- The bytes that a plugin writes into the buffer for its name.
unfoldable pub fill_name : Bytes → Bytes → Result Bytes
fill_name text buf =
    if leb (length text) (length buf) then ok (overlay text buf) else fault bad_write

c_text-overlay :
    (text rest : Bytes)
    → All (λ (c : ℕ). (c == 0) ≡ false) text
    → c_text (text ++ 0 ∷ rest) ≡ ok text
unfolding c_text
c_text-overlay [] rest p = refl
c_text-overlay (c ∷ text) rest p = rw (p.0, c_text-overlay text rest p.1) refl

name_read :
    (text buf : Bytes)
    → All (λ (c : ℕ). (c == 0) ≡ false) text
    → length text < length buf
    → (fill_name (text ++ 0 ∷ []) buf >>= c_text) ≡ ok text
unfolding fill_name
name_read text buf p room =
    let fits : leb (length (text ++ 0 ∷ [])) (length buf) ≡ true =
      ground (arith, length-append text (0 ∷ [])) in
    rw (fits, append_assoc text) (c_text-overlay text _ p)

module _ {L H : Type 0} (linker : Linker L) (exported : Exported L H) where
  -- A call of the function that `GetProc` found, which may be NULL.
  unfoldable pub call : {A : Type 0} → L → Bytes → A → Result A
  call lib name answer = if linker.get_proc lib name then ok answer else fault null_pointer

  -- `port`.
  unfoldable pub plugin_port : DynamicPlugin L → Result ℕ
  unfolding call
  plugin_port plugin = do
    lib ← library plugin
    call lib (codes "DefaultPort") (exported.default_port lib)

  -- `sock_type`.
  unfoldable pub plugin_sock_type : DynamicPlugin L → Result SockType
  unfolding call
  plugin_sock_type plugin = do
    lib ← asserted_library plugin
    call lib (codes "SocketType") (exported.socket_type lib)

  -- `NewProtocolHandler`.
  unfoldable pub new_protocol_handler : DynamicPlugin L → Result H
  unfolding call
  new_protocol_handler plugin = do
    lib ← asserted_library plugin
    call lib (codes "NewHandler") (exported.new_handler lib)

  -- `name`.
  unfoldable pub plugin_name : DynamicPlugin L → Result Bytes
  unfolding call fill_name c_text
  plugin_name plugin = do
    lib ← asserted_library plugin
    text ← call lib (codes "GetPluginName") (exported.name_written lib name_size)
    buf ← fill_name text (replicate name_size 0)
    c_text buf

  -- `Initialize`, on the plugin's own `LogFn`.
  unfoldable pub initialize : (LogSeverity → PluginOutput) → DynamicPlugin L → LogFn → Result LogFn
  unfolding call
  initialize log plugin fn = do
    lib ← library plugin
    call lib (codes "RegisterLogFn") (register_log_fn log fn)

  -- Documented behaviour of `GetPluginName`: it writes a text with its NUL, into the buffer's bytes.
  pub record NameLaws : Type 0 where
    pub text : L → Bytes
    pub no_nul : (lib : L) → All (λ (c : ℕ). (c == 0) ≡ false) (text lib)
    pub is_terminated : (lib : L) → exported.name_written lib name_size ≡ text lib ++ 0 ∷ []
    pub fits : (lib : L) → length (text lib) < name_size

  -- The five calls give what the library's functions give.
  pub record Answers (laws : NameLaws) (log : LogSeverity → PluginOutput) (p : DynamicPlugin L)
      : Type 0 where
    pub lib : L
    pub port_is : plugin_port p ≡ ok (exported.default_port lib)
    pub sock_type_is : plugin_sock_type p ≡ ok (exported.socket_type lib)
    pub handler_is : new_protocol_handler p ≡ ok (exported.new_handler lib)
    pub name_is : plugin_name p ≡ ok (laws.text lib)
    pub initialized : (fn : LogFn) → initialize log p fn ≡ ok (some log)

  pub IsPlugin-Answers :
      (laws : NameLaws) (log : LogSeverity → PluginOutput) (p : DynamicPlugin L)
      → IsPlugin linker p
      → Answers laws log p
  unfolding plugin_port plugin_sock_type new_protocol_handler plugin_name initialize call
      register_log_fn
  IsPlugin-Answers laws log p
        (path, lib, is_lib, loads, (has_name, (has_type, (has_port, (has_new, (has_log, _)))))) =
      record {
        lib = lib;
        port_is = rw (is_lib, has_port) refl;
        sock_type_is = rw (is_lib, has_type) refl;
        handler_is = rw (is_lib, has_new) refl;
        name_is =
            rw (is_lib, has_name, laws.is_terminated lib)
              (name_read (laws.text lib) (replicate name_size 0) (laws.no_nul lib) (laws.fits lib));
        initialized = λ fn. rw (is_lib, has_log) refl;
      }

  -- On every plugin that `LoadPlugins` loads, the five calls return what the library's functions give,
  -- where those write their name as documented. None of them calls a NULL function.
  pub load_plugins-Answers :
      (laws : NameLaws) (log : LogSeverity → PluginOutput) (fs : FileSystem) (root : Bytes)
      → All (Answers laws log) (load_plugins linker fs root []).1
  load_plugins-Answers laws log fs root =
      let any : DynamicPlugin L = record { m_lib = none } in
      All-map (IsPlugin linker) (Answers laws log) (load_plugins linker fs root []).1
        (IsPlugin-Answers laws log) (load_plugins-IsPlugin linker fs root any []).1
