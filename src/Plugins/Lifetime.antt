-- ===== src/Plugins/Lifetime.antt =====
-- Who owns the libraries of plugins: `PluginLoader` (server_plugin/plugin_loader.h, plugin_loader.cpp)
-- with the plugins that it owns (server_plugin.cpp) and the shared pointers in them.
pub mod Balance
pub mod Owned
pub mod Closes
use mod_server.Prelude.{
  ℕ, Bool, true, false, not, Option, none, some, List, [], ◌∷◌, ◌++◌, if◌then◌else◌, Bytes,
}
use mod_server.Prelude.Fault.{Result, ok, ◌>>=◌}
use mod_server.Base.DynamicLib.{Dl, DynamicLib}
use mod_server.Base.DynamicLib.Shared.{
  Libs, no_libs, new_shared, copy_shared, drop_shared, deref_lib,
}
use mod_server.Base.Folder.{FileSystem, get_all_subfolders, get_files_wildcard}
use mod_server.Plugins.{linker_of, has_procs, exported_names, plugin_wildcard}

-- `m_plugins`, each plugin by its `m_lib`, and the libraries.
pub record PluginLoader (Handle : Type 0) : Type 0 where
  pub m_plugins : List ℕ
  pub libs : Libs Handle

abbrev pub new_loader : {Handle : Type 0} → PluginLoader Handle
new_loader = record { m_plugins = []; libs = no_libs }

module _ {Handle : Type 0} (dl : Dl Handle) where
  -- `new DynamicPlugin(pluginDll)`: the pointer is copied into the parameter and from there into `m_lib`,
  -- and then the parameter ends.
  unfoldable pub new_dynamic_plugin : ℕ → Libs Handle → Result (Libs Handle)
  new_dynamic_plugin p libs = do
    libs1 ← copy_shared p libs
    libs2 ← copy_shared p libs1
    drop_shared p libs2

  -- `delete` on a plugin: its `m_lib` ends.
  unfoldable pub delete_plugin : ℕ → Libs Handle → Result (Libs Handle)
  delete_plugin p libs = drop_shared p libs

  -- `IsValid` on the plugin's library, which must be alive.
  unfoldable pub is_valid_shared : ℕ → Libs Handle → Result Bool
  is_valid_shared p libs = do
    (h, owners) ← deref_lib (libs.objects p)
    ok (has_procs (linker_of dl) (record { m_handle = h }) exported_names)

  -- `AddPlugin`.
  unfoldable pub add_plugin : ℕ → PluginLoader Handle → PluginLoader Handle
  add_plugin p loader = record loader { m_plugins = loader.m_plugins ++ p ∷ [] }

  -- The plugin is not valid: the `unique_ptr` deletes it, and then `pluginDll` ends.
  unfoldable pub reject_plugin :
      ℕ → PluginLoader Handle → Libs Handle → Result (PluginLoader Handle)
  reject_plugin p loader libs = do
    libs1 ← delete_plugin p libs
    libs2 ← drop_shared p libs1
    ok (record loader { libs = libs2 })

  -- The plugin is released by the `unique_ptr` and added, and then `pluginDll` ends.
  unfoldable pub accept_plugin :
      ℕ → PluginLoader Handle → Libs Handle → Result (PluginLoader Handle)
  accept_plugin p loader libs = do
    libs1 ← drop_shared p libs
    ok (add_plugin p (record loader { libs = libs1 }))

  -- The body of the inner loop of `LoadAll`.
  unfoldable pub try_file : Option Handle → PluginLoader Handle → Result (PluginLoader Handle)
  try_file none loader = ok loader
  try_file (some h) loader = do
    let p = loader.libs.next
    libs ← new_dynamic_plugin p (new_shared h loader.libs)
    good ← is_valid_shared p libs
    if not good then reject_plugin p loader libs else accept_plugin p loader libs

  -- The inner loop.
  unfoldable pub try_files : List Bytes → PluginLoader Handle → Result (PluginLoader Handle)
  try_files [] loader = ok loader
  try_files (path ∷ paths) loader = do
    loader' ← try_file (dl.dlopen path) loader
    try_files paths loader'

  -- The outer loop.
  unfoldable pub try_folders :
      FileSystem → List Bytes → PluginLoader Handle → Result (PluginLoader Handle)
  try_folders fs [] loader = ok loader
  try_folders fs (folder ∷ folders) loader = do
    loader' ← try_files (get_files_wildcard fs plugin_wildcard folder) loader
    try_folders fs folders loader'

  -- `LoadAll`.
  unfoldable pub load_all_owned :
      FileSystem → Bytes → PluginLoader Handle → Result (PluginLoader Handle)
  load_all_owned fs root loader = try_folders fs (get_all_subfolders fs root [] ++ root ∷ []) loader

  -- The loop of `UnloadAll`.
  unfoldable pub delete_plugins : List ℕ → Libs Handle → Result (Libs Handle)
  delete_plugins [] libs = ok libs
  delete_plugins (p ∷ ps) libs = do libs' ← delete_plugin p libs; delete_plugins ps libs'

  -- `UnloadAll`.
  unfoldable pub unload_owned : PluginLoader Handle → Result (PluginLoader Handle)
  unload_owned loader = do
    libs ← delete_plugins loader.m_plugins loader.libs
    ok (record { m_plugins = []; libs = libs })

  -- `Server::UnloadAllPlugins`.
  unfoldable pub unload_all_plugins : PluginLoader Handle → Result (PluginLoader Handle)
  unload_all_plugins loader = unload_owned loader

  -- `~PluginLoader`.
  unfoldable pub destroy_loader : PluginLoader Handle → Result (PluginLoader Handle)
  destroy_loader loader = unload_owned loader

  -- `~Server`, and then the end of its `m_pluginLoader`.
  unfoldable pub destroy_server : PluginLoader Handle → Result (PluginLoader Handle)
  destroy_server loader = do unloaded ← unload_owned loader; destroy_loader unloaded
