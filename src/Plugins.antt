-- ===== src/Plugins.antt =====
-- Plugins in shared libraries (server_plugin/server_plugin.cpp, plugin_loader.cpp) and
-- `Server::LoadPlugins` (server_core/server.cpp).
pub mod Loaded
pub mod Calls
pub mod Lifetime
use mod_server.Prelude.{
  Bool, true, false, not, Option, none, some, List, [], ◌∷◌, ◌++◌, if◌then◌else◌, Bytes, is_empty,
}
use mod_server.Prelude.Text.{codes}
use mod_server.Base.DynamicLib.{Dl, DynamicLib, load_lib, get_symbol}
use mod_server.Base.Folder.{FileSystem, get_all_subfolders, get_files_wildcard}

-- `DynamicLib::Load`, and whether `GetProc` finds a name.
pub record Linker (L : Type 0) : Type 0 where
  pub load : Bytes → Option L
  pub get_proc : L → Bytes → Bool

-- The linker that `DynamicLib` makes of `dlopen` and `dlsym`.
abbrev pub linker_of : {Handle : Type 0} → Dl Handle → Linker (DynamicLib Handle)
linker_of dl = record { load = λ path. (load_lib dl path).0; get_proc = get_symbol dl }

pub record DynamicPlugin (L : Type 0) : Type 0 where
  pub m_lib : Option L

-- `exportedNames`.
abbrev pub exported_names : List Bytes
exported_names =
    codes "GetPluginName"
    ∷ codes "SocketType"
    ∷ codes "DefaultPort"
    ∷ codes "NewHandler"
    ∷ codes "RegisterLogFn"
    ∷ []

-- `"*_plugin"` with `kDllExt`.
abbrev pub plugin_wildcard : Bytes
plugin_wildcard = codes "*_plugin" ++ codes ".so"

abbrev pub has_loaded_plugins : {L : Type 0} → List (DynamicPlugin L) → Bool
has_loaded_plugins plugins = not (is_empty plugins)

-- `UnloadAll`.
abbrev pub unload_all : {L : Type 0} → List (DynamicPlugin L) → List (DynamicPlugin L)
unload_all plugins = []

module _ {L : Type 0} (linker : Linker L) where
  -- The loop of `IsValid`.
  unfoldable pub has_procs : L → List Bytes → Bool
  has_procs lib [] = true
  has_procs lib (name ∷ names) =
      let rest = has_procs lib names in if not (linker.get_proc lib name) then false else rest

  abbrev pub is_valid_lib : Option L → Bool
  is_valid_lib none = false
  is_valid_lib (some lib) = has_procs lib exported_names

  -- `DynamicPlugin::IsValid`.
  abbrev pub is_valid_plugin : DynamicPlugin L → Bool
  is_valid_plugin plugin = is_valid_lib plugin.m_lib

  -- One file: not loaded, not valid, or added.
  abbrev pub add_if_valid : Option L → List (DynamicPlugin L) → List (DynamicPlugin L)
  add_if_valid none plugins = plugins
  add_if_valid (some lib) plugins =
      let plugin : DynamicPlugin L = record { m_lib = some lib } in
      if not (is_valid_plugin plugin) then plugins else plugins ++ plugin ∷ []

  -- The inner loop of `LoadAll`.
  unfoldable pub load_files : List Bytes → List (DynamicPlugin L) → List (DynamicPlugin L)
  load_files [] plugins = plugins
  load_files (path ∷ paths) plugins = load_files paths (add_if_valid (linker.load path) plugins)

  -- The outer loop of `LoadAll`.
  unfoldable pub load_folders :
      FileSystem → List Bytes → List (DynamicPlugin L) → List (DynamicPlugin L)
  load_folders fs [] plugins = plugins
  load_folders fs (folder ∷ folders) plugins =
      load_folders fs folders (load_files (get_files_wildcard fs plugin_wildcard folder) plugins)

  -- `LoadAll`: the subfolders, then the root.
  unfoldable pub load_all : FileSystem → Bytes → List (DynamicPlugin L) → List (DynamicPlugin L)
  load_all fs root plugins = load_folders fs (get_all_subfolders fs root [] ++ root ∷ []) plugins

  -- `Server::LoadPlugins`.
  unfoldable pub load_plugins :
      FileSystem → Bytes → List (DynamicPlugin L) → Bool × List (DynamicPlugin L)
  load_plugins fs root plugins =
      let loaded = load_all fs root plugins in
      if has_loaded_plugins plugins then (false, plugins) else (has_loaded_plugins loaded, loaded)
