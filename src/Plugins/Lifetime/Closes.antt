-- ===== src/Plugins/Lifetime/Closes.antt =====
-- Every library that the loader opens is closed once (PluginLoader of server_plugin/plugin_loader.cpp,
-- `~Server` of server_core/server.cpp).
use mathlib.Core.List.Perm
use mathlib.Core.List.{Perm}
use mathlib.Core.List.{map-append}
use mod_server.Prelude.{
  ℕ, suc, ◌<◌, ◌≡◌, ◌≢◌, inl, inr, refl, ap, ◌∙◌, Bool, true, false, Option, none, some, List, [],
  ◌∷◌, ◌++◌, map, arith, if◌then◌else◌, ◌==◌, Bytes, Bool-cases, append-nil, All-append, All-map,
}
use mod_server.Prelude.Fault.{Result, ok}
use mod_server.Base.DynamicLib.{Dl, DynamicLib, lib_of, load_lib}
use mod_server.Base.DynamicLib.Shared.{opened, closed, put, was_called, put_self}
use mod_server.Base.Folder.{FileSystem, get_all_subfolders, get_files_wildcard}
use mod_server.Plugins.{
  DynamicPlugin, linker_of, plugin_wildcard, add_if_valid, load_files, load_folders, load_all,
}
use mod_server.Plugins.Lifetime.{
  PluginLoader, new_loader, try_file, try_files, try_folders, load_all_owned, delete_plugins,
  unload_owned, destroy_loader, destroy_server,
}
use mod_server.Plugins.Lifetime.Owned.{delete_plugins-Held, base, good, tried, try_file-tried}
use mod_server.Plugins.Lifetime.Balance.{
  opened_of, closed_of, Balanced-open, Balanced-last, Held, Held-same, Held-concat, Apart-concat,
  All-both, below-ne, put-others, IsBalanced,
}

module _ {Handle : Type 0} (dl : Dl Handle) where
  tried_keeps :
      (b : Bool) (h : Handle) (l : PluginLoader Handle) (v : IsBalanced l)
      → (v' : IsBalanced (tried dl b h l)) × (v'.handles
          ≡ (if b then v.handles ++ h ∷ [] else v.handles))
  tried_keeps true h l v =
      let n = l.libs.next in
      let new = put n (some (h, 1)) (base dl h l.libs) in
      (
        record {
          handles = v.handles ++ h ∷ [];
          below =
              All-append (λ p. p < suc n) l.m_plugins (n ∷ [])
                (All-map (λ p. p < n) (λ p. p < suc n) l.m_plugins (λ p small. omega arith) v.below)
                (omega arith, tt);
          apart = Apart-concat n l.m_plugins v.apart v.below;
          held =
              Held-concat new.objects n h l.m_plugins v.handles
                (Held-same l.libs.objects new.objects l.m_plugins v.handles
                  (put-others n (some (h, 1)) (base dl h l.libs) l.m_plugins
                    (below-ne n l.m_plugins v.below))
                  v.held)
                (put_self n (some (h, 1)) (base dl h l.libs));
          only = λ q a.
              let (old, (ne, _)) = All-both (λ p. p ≢ q) l.m_plugins (n ∷ []) a in
              let other : (n == q) ≡ false = ground (arith, ne) in rw other (v.only q old);
          balance = Balanced-open h l.libs.calls v.handles v.balance;
        },
        refl,
      )
  tried_keeps false h l v =
      let n = l.libs.next in
      let before = was_called (closed h) (base dl h l.libs) in
      (
        record {
          handles = v.handles;
          below =
              All-map (λ p. p < n) (λ p. p < suc n) l.m_plugins (λ p small. omega arith) v.below;
          apart = v.apart;
          held =
              Held-same l.libs.objects (put n none before).objects l.m_plugins v.handles
                (put-others n none before l.m_plugins (below-ne n l.m_plugins v.below)) v.held;
          only = λ q a. elim (Bool-cases (n == q)) [
            | inl same ↦ rw same
            | inr other ↦ rw other (v.only q a)
          ];
          balance =
              Balanced-last h (l.libs.calls ++ opened h ∷ []) v.handles
                (Balanced-open h l.libs.calls v.handles v.balance);
        },
        refl,
      )

  -- The plugin as Plugins.antt has it.
  abbrev pub plugin_with : Handle → DynamicPlugin (DynamicLib Handle)
  plugin_with h = record { m_lib = some (record { m_handle = h }) }

  -- A loop returned, and its plugins are the given ones.
  record Loads (plugins : List (DynamicPlugin (DynamicLib Handle)))
      (r : Result (PluginLoader Handle)) : Type 0 where
    pub loader : PluginLoader Handle
    pub returns : r ≡ ok loader
    pub balanced : IsBalanced loader
    pub same : map plugin_with balanced.handles ≡ plugins

  tried_adds :
      (h : Handle) (handles : List Handle)
      → map plugin_with (if good dl h then handles ++ h ∷ [] else handles)
        ≡ add_if_valid (linker_of dl) (lib_of dl (some h)) (map plugin_with handles)
  tried_adds h handles = elim (Bool-cases (good dl h)) [
    | inl is_good ↦ rw is_good (map-append plugin_with handles (h ∷ []))
    | inr is_bad ↦ rw is_bad refl
  ]

  try_file-Loads :
      (x : Option Handle) (l : PluginLoader Handle) (v : IsBalanced l)
      → Loads
          (add_if_valid (linker_of dl) (lib_of dl x) (map plugin_with v.handles))
          (try_file dl x l)
  unfolding try_file
  try_file-Loads none l v = record { loader = l; returns = refl; balanced = v; same = refl }
  try_file-Loads (some h) l v =
      let (v', e) = tried_keeps (good dl h) h l v in
      record {
        loader = tried dl (good dl h) h l;
        returns = try_file-tried dl h l;
        balanced = v';
        same = ap (map plugin_with) e ∙ tried_adds h v.handles;
      }

  try_files-Loads :
      (paths : List Bytes) (l : PluginLoader Handle) (v : IsBalanced l)
      → Loads (load_files (linker_of dl) paths (map plugin_with v.handles)) (try_files dl paths l)
  unfolding try_files load_files load_lib
  try_files-Loads [] l v = record { loader = l; returns = refl; balanced = v; same = refl }
  try_files-Loads (path ∷ paths) l v =
      let one = try_file-Loads (dl.dlopen path) l v in
      let rest = try_files-Loads paths one.loader one.balanced in
      record {
        loader = rest.loader;
        returns = rw one.returns rest.returns;
        balanced = rest.balanced;
        same = rest.same ∙ ap (load_files (linker_of dl) paths) one.same;
      }

  try_folders-Loads :
      (fs : FileSystem) (folders : List Bytes) (l : PluginLoader Handle) (v : IsBalanced l)
      → Loads
          (load_folders (linker_of dl) fs folders (map plugin_with v.handles))
          (try_folders dl fs folders l)
  unfolding try_folders load_folders
  try_folders-Loads fs [] l v = record { loader = l; returns = refl; balanced = v; same = refl }
  try_folders-Loads fs (folder ∷ folders) l v =
      let one = try_files-Loads (get_files_wildcard fs plugin_wildcard folder) l v in
      let rest = try_folders-Loads fs folders one.loader one.balanced in
      record {
        loader = rest.loader;
        returns = rw one.returns rest.returns;
        balanced = rest.balanced;
        same = rest.same ∙ ap (load_folders (linker_of dl) fs folders) one.same;
      }

  new_loader-IsBalanced : IsBalanced (new_loader {Handle = Handle})
  new_loader-IsBalanced = record {
    handles = [];
    below = tt;
    apart = tt;
    held = tt;
    only = λ q a. refl;
    balance = Perm.nil;
  }

  -- Whatever the folders hold and whatever the dynamic linker answers, no owner of a library is dropped
  -- too often or too late. `LoadAll` returns, its plugins are those that are loaded where libraries are
  -- never closed, in the same order, and each is the one owner of its library. Up to order, the
  -- libraries that were opened are then those that were closed and those of the plugins. The end of
  -- the server returns too, although it unloads twice, and leaves no library: up to order, those that
  -- were opened are those that were closed.
  pub destroy_server-load_all_owned :
      (fs : FileSystem) (root : Bytes)
      → (loaded last : PluginLoader Handle) × (handles : List Handle) × (load_all_owned dl fs root
            new_loader
          ≡ ok loaded)
        × (map plugin_with handles ≡ load_all (linker_of dl) fs root [])
        × Held loaded.libs.objects loaded.m_plugins handles
        × Perm (opened_of loaded.libs.calls) (closed_of loaded.libs.calls ++ handles)
        × (destroy_server dl loaded ≡ ok last)
        × ((p : ℕ) → last.libs.objects p ≡ none)
        × Perm (opened_of last.libs.calls) (closed_of last.libs.calls)
  unfolding load_all_owned load_all destroy_server destroy_loader unload_owned delete_plugins
      new_loader-IsBalanced
  destroy_server-load_all_owned fs root =
      let l =
        try_folders-Loads fs (get_all_subfolders fs root [] ++ root ∷ []) new_loader
          new_loader-IsBalanced in
      let v = l.balanced in
      let (libs, e, gone, b) =
        delete_plugins-Held dl l.loader.m_plugins v.handles l.loader.libs v.apart v.held v.only
          v.balance in
      (
        l.loader,
        record { m_plugins = []; libs = libs },
        v.handles,
        l.returns,
        l.same,
        v.held,
        v.balance,
        rw e refl,
        gone,
        rw (append-nil (closed_of libs.calls)) at b,
      )
