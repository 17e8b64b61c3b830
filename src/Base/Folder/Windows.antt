-- ===== src/Base/Folder/Windows.antt =====
-- `Folder` of the Windows build (base/path_win.cpp), as it is called here: without recursion. The search
-- for files is a parameter.
use mod_server.Prelude.{
  ◌≡◌, refl, Bool, false, not, ◌&&◌, Option, none, some, List, [], ◌∷◌, ◌++◌, if◌then◌else◌, Bytes,
  arith, All, map,
}
use mod_server.Prelude.Text.{codes}
use mod_server.Base.Folder.{
  FileSystem, is_dots, child, subfolders_among, get_all_subfolders, files_among, get_files_wildcard,
}

-- `WIN32_FIND_DATAW`, as far as it is used.
pub record FindData : Type 0 where
  pub file_name : Bytes
  pub is_directory : Bool

-- `FindFirstFileW` and `FindNextFileW`: what matches a pattern; `none` is INVALID_HANDLE_VALUE.
abbrev pub Find : Type 0
Find = Bytes → Option (List FindData)

abbrev pub found : Option (List FindData) → List FindData
found none = []
found (some entries) = entries

module _ (find : Find) where
  -- The loop of `GetAllSubfolders`: what it pushes.
  unfoldable pub win_subfolders_among : Bytes → List FindData → List Bytes
  win_subfolders_among folder [] = []
  win_subfolders_among folder (entry ∷ entries) =
      let rest = win_subfolders_among folder entries in
      if entry.is_directory && not (is_dots entry.file_name)
      then child folder entry.file_name ∷ rest
      else rest

  -- `GetAllSubfolders(subfolders)`.
  unfoldable pub win_get_all_subfolders : Bytes → List Bytes → List Bytes
  win_get_all_subfolders folder subfolders =
      subfolders ++ win_subfolders_among folder (found (find (folder ++ codes "/*")))

  -- The loop of `GetFilesWildcard`.
  unfoldable pub win_files_among : Bytes → List FindData → List Bytes
  win_files_among folder [] = []
  win_files_among folder (entry ∷ entries) =
      let rest = win_files_among folder entries in
      if not entry.is_directory then child folder entry.file_name ∷ rest else rest

  -- `GetFilesWildcard(wildcard, files)`, which clears the files first.
  unfoldable pub win_get_files_wildcard : Bytes → Bytes → List Bytes
  win_get_files_wildcard wildcard folder =
      win_files_among folder (found (find (folder ++ codes "/" ++ wildcard)))

-- The entries whose name matches a wildcard.
abbrev pub matching : (Bytes → Bool) → List FindData → List FindData
matching test [] = []
matching test (entry ∷ entries) =
    let rest = matching test entries in if test entry.file_name then entry ∷ rest else rest

-- Both systems see these entries of a folder, in this order; "." and ".." are folders.
pub record SameFolder (fs : FileSystem) (find : Find) (folder wildcard : Bytes)
    (entries : List FindData) : Type 0 where
  pub unix_lists : fs.read_dir folder ≡ some (map (λ (entry : FindData). entry.file_name) entries)
  pub unix_tells :
      All
        (λ (entry : FindData). fs.stat_is_dir folder entry.file_name ≡ some entry.is_directory)
        entries
  pub windows_lists : find (folder ++ codes "/*") ≡ some entries
  pub windows_matches :
      found (find (folder ++ codes "/" ++ wildcard)) ≡ matching (fs.fnmatch wildcard) entries
  pub dots :
      All
        (λ (entry : FindData). (is_dots entry.file_name && not entry.is_directory) ≡ false)
        entries

module _ (fs : FileSystem) (find : Find) (folder wildcard : Bytes) where
  same_subfolders :
      (entries : List FindData)
      → All
          (λ (entry : FindData). fs.stat_is_dir folder entry.file_name ≡ some entry.is_directory)
          entries
      → subfolders_among fs folder (map (λ (entry : FindData). entry.file_name) entries)
        ≡ win_subfolders_among find folder entries
  unfolding subfolders_among win_subfolders_among
  same_subfolders [] tells = refl
  same_subfolders (entry ∷ entries) tells = ground (arith, tells.0, same_subfolders entries tells.1)

  same_files :
      (entries : List FindData)
      → All
          (λ (entry : FindData). fs.stat_is_dir folder entry.file_name ≡ some entry.is_directory)
          entries
      → All
          (λ (entry : FindData). (is_dots entry.file_name && not entry.is_directory) ≡ false)
          entries
      → files_among fs wildcard folder (map (λ (entry : FindData). entry.file_name) entries)
        ≡ win_files_among find folder (matching (fs.fnmatch wildcard) entries)
  unfolding files_among win_files_among
  same_files [] tells dots = refl
  same_files (entry ∷ entries) tells dots =
      ground (arith, tells.0, dots.0, same_files entries tells.1 dots.1)

  -- Where both systems see the same entries of a folder, and the search of Windows for the wildcard finds
  -- those of them that match it, in the same order: both builds find the same subfolders and the same
  -- files, in the same order.
  pub get_files_wildcard-win :
      (entries : List FindData) (subfolders : List Bytes)
      → SameFolder fs find folder wildcard entries
      → (get_all_subfolders fs folder subfolders ≡ win_get_all_subfolders find folder subfolders)
        × (get_files_wildcard fs wildcard folder ≡ win_get_files_wildcard find wildcard folder)
  unfolding get_all_subfolders win_get_all_subfolders get_files_wildcard win_get_files_wildcard
  get_files_wildcard-win entries subfolders same = (
    rw (same.unix_lists, same.windows_lists, same_subfolders entries same.unix_tells) refl,
    rw (same.unix_lists, same.windows_matches, same_files entries same.unix_tells same.dots) refl,
  )
