-- ===== src/Base/Folder/RecursiveWindows.antt =====
-- `GetAllSubfolders` with recursion in the Windows build (base/path_win.cpp), beside that of the UNIX
-- build. The recursion runs on fuel, as there.
use mod_server.Prelude.{
  ℕ, zero, suc, ◌≤◌, ◌≡◌, refl, sym, ◌∙◌, Bool, not, ◌&&◌, some, List, [], ◌∷◌, ◌++◌, if◌then◌else◌,
  arith, Bytes, All, map,
}
use mod_server.Prelude.Fault.{Result, ok, fault, out_of_fuel, ◌>>=◌}
use mod_server.Prelude.Text.{codes}
use mod_server.Base.Folder.{FileSystem, is_dots, child, names_in}
use mod_server.Base.Folder.Windows.{FindData, Find, found}
use mod_server.Base.Folder.Recursive.{
  Entries, Has, names, depth, preorder, all_among, all_subfolders, all_subfolders-preorder,
}

-- Whether an entry is a folder to be listed.
abbrev pub win_is_subfolder : FindData → Bool
win_is_subfolder entry = entry.is_directory && not (is_dots entry.file_name)

-- The loop: a subfolder is pushed before what is below it.
unfoldable pub win_all_among :
    (Bytes → Result (List Bytes)) → Bytes → List FindData → Result (List Bytes)
win_all_among below folder [] = ok []
win_all_among below folder (entry ∷ entries) = do
  inside ← if win_is_subfolder entry then below (child folder entry.file_name) else ok []
  rest ← win_all_among below folder entries
  ok (if win_is_subfolder entry then child folder entry.file_name ∷ inside ++ rest else rest)

-- The entries that `FindFirstFileW` and `FindNextFileW` give for a folder.
abbrev pub entries_of : Find → Bytes → List FindData
entries_of find folder = found (find (folder ++ codes "/*"))

-- What `GetAllSubfolders(subfolders, true)` pushes.
unfoldable pub win_all_subfolders : Find → ℕ → Bytes → Result (List Bytes)
win_all_subfolders find zero folder = fault out_of_fuel
win_all_subfolders find (suc levels) folder =
    win_all_among (win_all_subfolders find levels) folder (entries_of find folder)

-- Both systems see the same entries of a folder, in the same order, or none.
pub record SameEntries (fs : FileSystem) (find : Find) (folder : Bytes) : Type 0 where
  pub lists :
      names_in (fs.read_dir folder)
      ≡ map (λ (entry : FindData). entry.file_name) (entries_of find folder)
  pub tells :
      All
        (λ (entry : FindData). fs.stat_is_dir folder entry.file_name ≡ some entry.is_directory)
        (entries_of find folder)

and_comm : (a b : Bool) → (a && b) ≡ (b && a)
and_comm a b = ground arith

module _ (fs : FileSystem) (find : Find) where
  all_among-win :
      (below win_below : Bytes → Result (List Bytes)) (folder : Bytes) (entries : List FindData)
      → ((path : Bytes) → below path ≡ win_below path)
      → All
          (λ (entry : FindData). fs.stat_is_dir folder entry.file_name ≡ some entry.is_directory)
          entries
      → all_among fs below folder (map (λ (entry : FindData). entry.file_name) entries)
        ≡ win_all_among win_below folder entries
  unfolding all_among win_all_among
  all_among-win below win_below folder [] same tells = refl
  all_among-win below win_below folder (entry ∷ entries) same (told, tells) =
      rw
        (
          told,
          and_comm (not (is_dots entry.file_name)) entry.is_directory,
          same (child folder entry.file_name),
          all_among-win below win_below folder entries same tells,
        )
        refl

  all_subfolders-win :
      (levels : ℕ) (folder : Bytes)
      → ((path : Bytes) → SameEntries fs find path)
      → all_subfolders fs levels folder ≡ win_all_subfolders find levels folder
  unfolding all_subfolders win_all_subfolders
  all_subfolders-win zero folder same = refl
  all_subfolders-win (suc levels) folder same = rw (same folder).lists (
      all_among-win (all_subfolders fs levels) (win_all_subfolders find levels) folder
        (entries_of find folder) (λ path. all_subfolders-win levels path same) (same folder).tells)

  -- Where both systems see the same entries of every folder: with one level of recursion for each level
  -- of folders and one more, the listing with recursion ends in both builds, and both give every folder
  -- below the root once, each before those in it and those before the next.
  pub all_subfolders-win_all_subfolders :
      (root : Bytes) (entries : Entries) (levels : ℕ)
      → ((path : Bytes) → SameEntries fs find path)
      → fs.read_dir root ≡ some (names entries)
      → Has fs root entries
      → depth entries ≤ levels
      → (all_subfolders fs (suc levels) root ≡ ok (preorder root entries))
        × (win_all_subfolders find (suc levels) root ≡ ok (preorder root entries))
  all_subfolders-win_all_subfolders root entries levels same lists has low =
      let ends = all_subfolders-preorder fs root entries levels lists has low in
      (ends, sym (all_subfolders-win (suc levels) root same) ∙ ends)
