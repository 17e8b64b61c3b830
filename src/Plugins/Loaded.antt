-- ===== src/Plugins/Loaded.antt =====
-- Which plugins are loaded.
use mod_server.Prelude.{
  ◌≡◌, ◌⊎◌, inl, inr, refl, sym, true, false, Option, none, some, List, [], ◌∷◌, ◌++◌, arith, Bytes,
  All, All-append, Bool-cases,
}
use mod_server.Base.Folder.{FileSystem, get_all_subfolders, get_files_wildcard}
use mod_server.Plugins.{
  Linker, DynamicPlugin, exported_names, plugin_wildcard, has_procs, add_if_valid, load_files,
  load_folders, load_all, load_plugins,
}

abbrev pub In : {A : Type 0} → A → List A → Type 0
In a [] = ⊥
In a (b ∷ bs) = (a ≡ b) ⊎ In a bs

In-append : {A : Type 0} (a : A) (xs ys : List A) → In a xs ⊎ In a ys → In a (xs ++ ys)
In-append a [] ys (inl i) = absurd i
In-append a [] ys (inr i) = i
In-append a (x ∷ xs) ys (inl (inl e)) = inl e
In-append a (x ∷ xs) ys (inl (inr i)) = inr (In-append a xs ys (inl i))
In-append a (x ∷ xs) ys (inr i) = inr (In-append a xs ys (inr i))

module _ {L : Type 0} (linker : Linker L) where
  -- All five functions are exported.
  abbrev pub Exports : L → Type 0
  Exports lib = All (λ name. linker.get_proc lib name ≡ true) exported_names

  -- The plugin is a library that was loaded from a file and exports all five functions.
  abbrev pub IsPlugin : DynamicPlugin L → Type 0
  IsPlugin p =
      (path : Bytes) × (lib : L) × (p.m_lib ≡ some lib)
      × (linker.load path ≡ some lib)
      × Exports lib

  has_procs-All :
      (lib : L) (names : List Bytes)
      → has_procs linker lib names ≡ true
      → All (λ name. linker.get_proc lib name ≡ true) names
  unfolding has_procs
  has_procs-All lib [] e = tt
  has_procs-All lib (n ∷ ns) e = elim (Bool-cases (linker.get_proc lib n)) [
    | inl found ↦ (found, has_procs-All lib ns (ground arith))
    | inr missing ↦ absurd (ground arith)
  ]

  All-has_procs :
      (lib : L) (names : List Bytes)
      → All (λ name. linker.get_proc lib name ≡ true) names
      → has_procs linker lib names ≡ true
  unfolding has_procs
  All-has_procs lib [] p = refl
  All-has_procs lib (n ∷ ns) p = rw (p.0, All-has_procs lib ns p.1) refl

  add_if_valid-IsPlugin :
      (path : Bytes) (lib? : Option L) (ps : List (DynamicPlugin L))
      → linker.load path ≡ lib?
      → All IsPlugin ps
      → All IsPlugin (add_if_valid linker lib? ps)
  add_if_valid-IsPlugin path none ps e h = h
  add_if_valid-IsPlugin path (some lib) ps e h =
      elim (Bool-cases (has_procs linker lib exported_names)) [
        | inl good ↦ rw good (
            All-append IsPlugin ps _ h
              ((path, lib, refl, e, has_procs-All lib exported_names good), tt))
        | inr bad ↦ rw bad h
      ]

  load_files-IsPlugin :
      (paths : List Bytes) (ps : List (DynamicPlugin L))
      → All IsPlugin ps
      → All IsPlugin (load_files linker paths ps)
  unfolding load_files
  load_files-IsPlugin [] ps h = h
  load_files-IsPlugin (path ∷ paths) ps h =
      load_files-IsPlugin paths _ (add_if_valid-IsPlugin path _ ps refl h)

  load_folders-IsPlugin :
      (fs : FileSystem) (folders : List Bytes) (ps : List (DynamicPlugin L))
      → All IsPlugin ps
      → All IsPlugin (load_folders linker fs folders ps)
  unfolding load_folders
  load_folders-IsPlugin fs [] ps h = h
  load_folders-IsPlugin fs (f ∷ folders) ps h =
      load_folders-IsPlugin fs folders _ (load_files-IsPlugin _ ps h)

  add_if_valid-In :
      (p : DynamicPlugin L) (lib? : Option L) (ps : List (DynamicPlugin L))
      → In p ps
      → In p (add_if_valid linker lib? ps)
  add_if_valid-In p none ps i = i
  add_if_valid-In p (some lib) ps i = elim (Bool-cases (has_procs linker lib exported_names)) [
    | inl good ↦ rw good (In-append p ps _ (inl i))
    | inr bad ↦ rw bad i
  ]

  load_files-In :
      (p : DynamicPlugin L) (paths : List Bytes) (ps : List (DynamicPlugin L))
      → In p ps
      → In p (load_files linker paths ps)
  unfolding load_files
  load_files-In p [] ps i = i
  load_files-In p (path ∷ paths) ps i =
      load_files-In p paths _ (add_if_valid-In p (linker.load path) ps i)

  load_folders-In :
      (fs : FileSystem) (p : DynamicPlugin L) (folders : List Bytes) (ps : List (DynamicPlugin L))
      → In p ps
      → In p (load_folders linker fs folders ps)
  unfolding load_folders
  load_folders-In fs p [] ps i = i
  load_folders-In fs p (f ∷ folders) ps i = load_folders-In fs p folders _ (load_files-In p _ ps i)

  module _ (path : Bytes) (lib : L) (loads : linker.load path ≡ some lib)
      (exports : Exports lib) where
    abbrev plugin : DynamicPlugin L
    plugin = record { m_lib = some lib }

    load_files-loads :
        (paths : List Bytes) (ps : List (DynamicPlugin L))
        → In path paths
        → In plugin (load_files linker paths ps)
    unfolding load_files
    load_files-loads [] ps i = absurd i
    load_files-loads (q ∷ paths) ps (inl e) = load_files-In plugin paths _ (
        rw (sym e, loads, All-has_procs lib exported_names exports)
          (In-append plugin ps _ (inr (inl refl))))
    load_files-loads (q ∷ paths) ps (inr i) = load_files-loads paths _ i

    load_folders-loads :
        (fs : FileSystem) (folder : Bytes) (folders : List Bytes) (ps : List (DynamicPlugin L))
        → In path (get_files_wildcard fs plugin_wildcard folder)
        → In folder folders
        → In plugin (load_folders linker fs folders ps)
    unfolding load_folders
    load_folders-loads fs folder [] ps i j = absurd j
    load_folders-loads fs folder (f ∷ folders) ps i (inl e) =
        load_folders-In fs plugin folders _ (load_files-loads _ ps (rw e at i))
    load_folders-loads fs folder (f ∷ folders) ps i (inr j) =
        load_folders-loads fs folder folders _ i j

  -- `LoadPlugins` does nothing where plugins are loaded. Otherwise every plugin that it loads exports
  -- all five functions, and a file of the wildcard in the folder or in one right below it is loaded, if
  -- `dlopen` opens it and it exports them.
  pub load_plugins-IsPlugin :
      (fs : FileSystem) (root : Bytes) (p : DynamicPlugin L) (ps : List (DynamicPlugin L))
      → (load_plugins linker fs root (p ∷ ps) ≡ (false, p ∷ ps))
        × All IsPlugin (load_plugins linker fs root []).1
        × ((folder path : Bytes) (lib : L)
            → In folder (get_all_subfolders fs root [] ++ root ∷ [])
            → In path (get_files_wildcard fs plugin_wildcard folder)
            → linker.load path ≡ some lib
            → Exports lib
            → In (record { m_lib = some lib }) (load_plugins linker fs root []).1)
  unfolding load_plugins load_all
  load_plugins-IsPlugin fs root p ps = (
    refl,
    load_folders-IsPlugin fs _ [] tt,
    λ folder path lib j i loads exports.
        load_folders-loads path lib loads exports fs folder _ [] i j,
  )
