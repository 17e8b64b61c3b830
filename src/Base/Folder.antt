-- ===== src/Base/Folder.antt =====
-- `Folder` (base/path.h, path_unix.cpp), as it is called here: without recursion. The directory and
-- file calls are a parameter.
pub mod Windows
pub mod Recursive
pub mod RecursiveWindows
use mod_server.Prelude.{
  Bool, false, not, ◌&&◌, ◌||◌, Option, none, some, List, [], ◌∷◌, ◌++◌, if◌then◌else◌, Bytes,
  bytes_eq,
}
use mod_server.Prelude.Text.{codes}

-- `opendir` with `readdir_r`, `fstatat` with `S_ISDIR`, and `fnmatch`.
pub record FileSystem : Type 0 where
  pub read_dir : Bytes → Option (List Bytes)
  pub stat_is_dir : Bytes → Bytes → Option Bool
  pub fnmatch : Bytes → Bytes → Bool

abbrev pub is_dots : Bytes → Bool
is_dots name = bytes_eq name (codes "..") || bytes_eq name (codes ".")

abbrev pub is_folder : Option Bool → Bool
is_folder none = false
is_folder (some is_dir) = is_dir

abbrev pub is_file : Option Bool → Bool
is_file none = false
is_file (some is_dir) = not is_dir

-- `path().ToString() + '/' + d_name`.
abbrev pub child : Bytes → Bytes → Bytes
child folder name = folder ++ (b'/' ∷ name)

abbrev pub names_in : Option (List Bytes) → List Bytes
names_in none = []
names_in (some names) = names

module _ (fs : FileSystem) where
  -- The loop of `GetAllSubfolders`: what it pushes.
  unfoldable pub subfolders_among : Bytes → List Bytes → List Bytes
  subfolders_among folder [] = []
  subfolders_among folder (name ∷ names) =
      let rest = subfolders_among folder names in
      if not (is_dots name) && is_folder (fs.stat_is_dir folder name)
      then child folder name ∷ rest
      else rest

  -- `GetAllSubfolders(subfolders)`.
  unfoldable pub get_all_subfolders : Bytes → List Bytes → List Bytes
  get_all_subfolders folder subfolders =
      subfolders ++ subfolders_among folder (names_in (fs.read_dir folder))

  -- The loop of `GetFilesWildcard`.
  unfoldable pub files_among : Bytes → Bytes → List Bytes → List Bytes
  files_among wildcard folder [] = []
  files_among wildcard folder (name ∷ names) =
      let rest = files_among wildcard folder names in
      if not (is_dots name) && (is_file (fs.stat_is_dir folder name) && fs.fnmatch wildcard name)
      then child folder name ∷ rest
      else rest

  -- `GetFilesWildcard(wildcard, files)`, which clears the files first.
  unfoldable pub get_files_wildcard : Bytes → Bytes → List Bytes
  get_files_wildcard wildcard folder = files_among wildcard folder (names_in (fs.read_dir folder))
