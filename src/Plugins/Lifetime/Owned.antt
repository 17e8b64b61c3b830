-- ===== src/Plugins/Lifetime/Owned.antt =====
-- The loader returns from its loops, loads what Plugins.antt says, and closes what it opened
-- (PluginLoader of server_plugin/plugin_loader.cpp).
use mod_server.Prelude.{
  ℕ, suc, ◌≡◌, ◌≢◌, inl, inr, refl, Bool, true, false, none, some, List, [], ◌∷◌, ◌++◌, arith, ◌==◌,
  Bool-cases, All,
}
use mod_server.Prelude.Fault.{ok}
use mod_server.Base.DynamicLib.{Dl}
use mod_server.Base.DynamicLib.Shared.{
  opened, closed, Libs, put, was_called, put_self, new_shared, copy_shared-put, drop_shared-put,
  drop_shared-last, drop_shared_only,
}
use mod_server.Plugins.{linker_of, has_procs, exported_names}
use mod_server.Plugins.Lifetime.{
  PluginLoader, new_dynamic_plugin, is_valid_shared, delete_plugin, accept_plugin, add_plugin,
  reject_plugin, try_file, delete_plugins,
}
use mod_server.Plugins.Lifetime.Balance.{
  Balanced, Balanced-close, Held, Held-same, Apart, put-others,
}

module _ {Handle : Type 0} (dl : Dl Handle) where
  -- The loop of `UnloadAll` closes everything.
  pub delete_plugins-Held :
      (ps : List ℕ) (hs : List Handle) (libs : Libs Handle)
      → Apart ps
      → Held libs.objects ps hs
      → ((q : ℕ) → All (λ p. p ≢ q) ps → libs.objects q ≡ none)
      → Balanced libs.calls hs
      → (libs' : Libs Handle) × (delete_plugins dl ps libs ≡ ok libs')
        × ((q : ℕ) → libs'.objects q ≡ none)
        × Balanced libs'.calls []
  unfolding delete_plugins delete_plugin
  delete_plugins-Held [] [] libs d held only b = (libs, refl, (λ q. only q tt), b)
  delete_plugins-Held [] (h ∷ hs) libs d held only b = absurd held
  delete_plugins-Held (p ∷ ps) [] libs d held only b = absurd held
  delete_plugins-Held (p ∷ ps) (h ∷ hs) libs (out, d) (e, held) only b =
      let libs1 = put p none (was_called (closed h) libs) in
      let (libs', rest, gone, b') =
        delete_plugins-Held ps hs libs1 d
          (Held-same libs.objects libs1.objects ps hs
            (put-others p none (was_called (closed h) libs) ps out) held)
          (λ q a. elim (Bool-cases (p == q)) [
            | inl same ↦ ground arith
            | inr other ↦ rw other (only q (ground arith, a))
          ])
          (Balanced-close h libs.calls hs b) in
      (libs', rw (drop_shared_only p h libs e) rest, gone, b')

  -- The libraries behind `dlopen`, before the plugin is made.
  abbrev pub base : Handle → Libs Handle → Libs Handle
  base h libs = record (was_called (opened h) libs) { next = suc libs.next }

  new_dynamic_plugin-put :
      (p : ℕ) (h : Handle) (libs : Libs Handle)
      → new_dynamic_plugin dl p (put p (some (h, 1)) libs) ≡ ok (put p (some (h, 2)) libs)
  unfolding new_dynamic_plugin
  new_dynamic_plugin-put p h libs =
      rw (copy_shared-put p 1 h libs) (rw (copy_shared-put p 2 h libs) (drop_shared-put p 1 h libs))

  -- Whether the library of this handle exports what a plugin must.
  abbrev pub good : Handle → Bool
  good h = has_procs (linker_of dl) (record { m_handle = h }) exported_names

  is_valid_shared-put :
      (p : ℕ) (h : Handle) (libs : Libs Handle)
      → is_valid_shared dl p (put p (some (h, 2)) libs) ≡ ok (good h)
  unfolding is_valid_shared
  is_valid_shared-put p h libs = rw (put_self p (some (h, 2)) libs) refl

  reject_plugin-put :
      (p : ℕ) (h : Handle) (loader : PluginLoader Handle) (libs : Libs Handle)
      → reject_plugin dl p loader (put p (some (h, 2)) libs)
        ≡ ok (record loader { libs = put p none (was_called (closed h) libs) })
  unfolding reject_plugin delete_plugin
  reject_plugin-put p h loader libs =
      rw (drop_shared-put p 0 h libs) (rw (drop_shared-last p h libs) refl)

  accept_plugin-put :
      (p : ℕ) (h : Handle) (loader : PluginLoader Handle) (libs : Libs Handle)
      → accept_plugin dl p loader (put p (some (h, 2)) libs)
        ≡ ok (record { m_plugins = loader.m_plugins ++ p ∷ []; libs = put p (some (h, 1)) libs })
  unfolding accept_plugin add_plugin
  accept_plugin-put p h loader libs = rw (drop_shared-put p 0 h libs) refl

  -- A file that `dlopen` opens: the state behind it.
  abbrev pub tried : Bool → Handle → PluginLoader Handle → PluginLoader Handle
  tried true h l = record {
    m_plugins = l.m_plugins ++ l.libs.next ∷ [];
    libs = put l.libs.next (some (h, 1)) (base h l.libs);
  }
  tried false h l = record l { libs = put l.libs.next none (was_called (closed h) (base h l.libs)) }

  pub try_file-tried :
      (h : Handle) (l : PluginLoader Handle) → try_file dl (some h) l ≡ ok (tried (good h) h l)
  unfolding try_file new_shared
  try_file-tried h l =
      let n = l.libs.next in
      rw (new_dynamic_plugin-put n h (base h l.libs), is_valid_shared-put n h (base h l.libs))
        (elim (Bool-cases (good h)) [
          | inl is_good ↦ rw is_good (accept_plugin-put n h l (base h l.libs))
          | inr is_bad ↦ rw is_bad (reject_plugin-put n h l (base h l.libs))
        ])
