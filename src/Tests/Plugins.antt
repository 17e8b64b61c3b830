-- ===== src/Tests/Plugins.antt =====
-- A folder with one plugin and one library that is none.
use mathlib.Core.List.{Perm}
use mod_server.Prelude.{
  List, map, ◌≡◌, refl, true, false, none, some, [], ◌∷◌, ◌++◌, Bytes, All, ◌==◌, ℕ, length,
}
use mod_server.Prelude.Text.{codes}
use mod_server.Prelude.Int.{pos}
use mod_server.Base.DynamicLib.{Dl, load_lib}
use mod_server.Base.Folder.{
  FileSystem, get_all_subfolders, subfolders_among, get_files_wildcard, files_among,
}
use mod_server.Plugins.{
  Linker, linker_of, plugin_wildcard, load_plugins, load_all, load_folders, load_files, has_procs,
}
use mod_server.Prelude.Fault.{ok}
use mod_server.Plugins.Lifetime.{PluginLoader, new_loader, load_all_owned, destroy_server}
use mod_server.Plugins.Lifetime.Balance.{Held, opened_of, closed_of}
use mod_server.Plugins.Lifetime.Closes.{plugin_with, destroy_server-load_all_owned}
use mod_server.Plugins.Loaded.{In, Exports, IsPlugin, load_plugins-IsPlugin}

abbrev pub files : FileSystem
files = record {
  read_dir = λ folder. some (codes "." ∷ codes "a_plugin.so" ∷ codes "bb_plugin.so" ∷ []);
  stat_is_dir = λ folder name. some false;
  fnmatch = λ wildcard name. true;
}

-- A library is the length of its path; the shorter one exports everything.
abbrev pub libraries : Linker ℕ
libraries = record {
  load = λ path. some (length path);
  get_proc = λ lib name. lib == length (codes "plugins/a_plugin.so");
}

load_plugins-IsPlugin_example :
    (load_plugins libraries files (codes "plugins") (record { m_lib = some 1 } ∷ [])
      ≡ (false, record { m_lib = some 1 } ∷ []))
    × All (IsPlugin libraries) (load_plugins libraries files (codes "plugins") []).1
    × ((folder path : Bytes) (lib : ℕ)
        → In folder (get_all_subfolders files (codes "plugins") [] ++ codes "plugins" ∷ [])
        → In path (get_files_wildcard files plugin_wildcard folder)
        → libraries.load path ≡ some lib
        → Exports libraries lib
        → In (record { m_lib = some lib }) (load_plugins libraries files (codes "plugins") []).1)
load_plugins-IsPlugin_example =
    load_plugins-IsPlugin libraries files (codes "plugins") (record { m_lib = some 1 }) []

-- Only the first of the two files is loaded.
one_plugin :
    load_plugins libraries files (codes "plugins") []
    ≡ (true, record { m_lib = some (length (codes "plugins/a_plugin.so")) } ∷ [])
unfolding load_plugins load_all load_folders load_files has_procs get_all_subfolders
    subfolders_among get_files_wildcard files_among
one_plugin = refl

-- A system that opens no library, through `DynamicLib`.
abbrev no_libraries : Dl ℕ
no_libraries = record { dlopen = λ path. none; dlsym = λ handle name. false; errno = λ path. pos 2 }

none_opened :
    (load_lib no_libraries (codes "x.so") ≡ (none, pos 2))
    × (load_plugins (linker_of no_libraries) files (codes "plugins") [] ≡ (false, []))
unfolding load_lib load_plugins load_all load_folders load_files get_all_subfolders subfolders_among
    get_files_wildcard files_among
none_opened = (refl, refl)

-- A system that opens every file; the handle is the length of its path.
abbrev all_libraries : Dl ℕ
all_libraries = record {
  dlopen = λ path. some (length path);
  dlsym = λ handle name. handle == length (codes "plugins/a_plugin.so");
  errno = λ path. pos 0;
}

destroy_server-load_all_owned_example :
    (loaded last : PluginLoader ℕ) × (handles : List ℕ) × (load_all_owned all_libraries files
        (codes "plugins")
        new_loader
      ≡ ok loaded)
    × (map (plugin_with all_libraries) handles
        ≡ load_all (linker_of all_libraries) files (codes "plugins") [])
    × Held loaded.libs.objects loaded.m_plugins handles
    × Perm (opened_of loaded.libs.calls) (closed_of loaded.libs.calls ++ handles)
    × (destroy_server all_libraries loaded ≡ ok last)
    × ((p : ℕ) → last.libs.objects p ≡ none)
    × Perm (opened_of last.libs.calls) (closed_of last.libs.calls)
destroy_server-load_all_owned_example =
    destroy_server-load_all_owned all_libraries files (codes "plugins")
