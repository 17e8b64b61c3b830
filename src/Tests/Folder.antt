-- ===== src/Tests/Folder.antt =====
-- A folder as both systems list it, a path, and a text for the controller in pieces.
use mod_server.Prelude.{
  ℕ, zero, suc, arith, inl, inr, Bool-cases, ◌≡◌, ◌≢◌, refl, ap, true, false, Option, some, All,
  ltb→lt, List, [], ◌∷◌, ◌++◌, Bytes, bytes_eq, length, ltb, if◌then◌else◌, replicate,
}
use mod_server.Prelude.Fault.{ok, fault, bad_write}
use mod_server.Prelude.Text.{codes}
use mod_server.Base.Folder.{FileSystem, get_all_subfolders, get_files_wildcard}
use mod_server.Base.Folder.Windows.{
  FindData, Find, SameFolder, win_get_all_subfolders, win_get_files_wildcard,
  get_files_wildcard-win,
}
use mod_server.Base.Folder.Recursive.{
  Entries, no_more, plain, folder_with, preorder, all_subfolders, all_subfolders-preorder,
}
use mod_server.Base.Folder.RecursiveWindows.{
  SameEntries, win_all_subfolders, all_subfolders-win_all_subfolders,
}
use mod_server.Base.Path.{absolute, absolute-realpath, or_empty_path}
use mod_server.Base.Path.Windows.{GetFullPath, FullPathLaws, win_absolute, absolute-win_absolute}
use mod_server.Controller.{
  new_controller_handler, controller_did_receive, after_pieces, joined, heard, ends_line,
  controller_did_receive-joined,
}
use mod_server.Server.IpEndPoint.{c_string}

abbrev listed : List FindData
listed =
    record { file_name = codes ".."; is_directory = true }
    ∷ record { file_name = codes "a"; is_directory = true }
    ∷ record { file_name = codes "x.so"; is_directory = false }
    ∷ []

abbrev names_one : Bytes → Bytes → Bytes
names_one wildcard name = name

abbrev unix : FileSystem
unix = record {
  read_dir = λ folder. some (codes ".." ∷ codes "a" ∷ codes "x.so" ∷ []);
  stat_is_dir = λ folder name. some (if bytes_eq name (codes "x.so") then false else true);
  fnmatch = λ wildcard name. bytes_eq wildcard name;
}

abbrev windows : Find
windows pattern =
    if bytes_eq pattern (codes "p/*")
    then some listed
    else some (record { file_name = codes "x.so"; is_directory = false } ∷ [])

same_listing : SameFolder unix windows (codes "p") (codes "x.so") listed
same_listing = record {
  unix_lists = refl;
  unix_tells = (refl, (refl, (refl, tt)));
  windows_lists = refl;
  windows_matches = refl;
  dots = (refl, (refl, (refl, tt)));
}

same_listing_is_found :
    (get_all_subfolders unix (codes "p") [] ≡ win_get_all_subfolders windows (codes "p") [])
    × (get_files_wildcard unix (codes "x.so") (codes "p")
        ≡ win_get_files_wildcard windows (codes "x.so") (codes "p"))
same_listing_is_found =
    get_files_wildcard-win unix windows (codes "p") (codes "x.so") listed [] same_listing

long_path_is_written :
    absolute (λ path. some (replicate 600 65)) (record { m_path = codes "x" }) ≡ (
      if ltb (length (or_empty_path (some (replicate 600 65)))) 512
      then ok (or_empty_path (some (replicate 600 65)))
      else fault bad_write)
long_path_is_written =
    absolute-realpath (λ path. some (replicate 600 65)) (record { m_path = codes "x" })

-- A path of 515 characters, which only the Windows build has room for.
abbrev long_path : Bytes
long_path = replicate 515 65

abbrev full_of_any : Bytes → Option Bytes
full_of_any path = some long_path

abbrev call_of_any : GetFullPath
call_of_any path size buf = (length long_path, long_path ++ 0 ∷ [])

laws_of_any : FullPathLaws call_of_any full_of_any
laws_of_any = record {
  writes = λ path text buf e room.
      let same : long_path ≡ text = cc in ([], ap (λ (t : Bytes). (length t, t ++ 0 ∷ [])) same);
  fails = λ path buf e. absurd (cc);
}

no_nul : (n : ℕ) → All (λ (c : ℕ). c ≢ 0) (replicate n 65)
no_nul zero = tt
no_nul (suc n) = (omega arith, no_nul n)

absolute-win_absolute_example :
    (win_absolute call_of_any (record { m_path = codes "x" }) ≡ ok long_path)
    × (absolute full_of_any (record { m_path = codes "x" }) ≡ (
        if ltb (length long_path) 512
        then win_absolute call_of_any (record { m_path = codes "x" })
        else fault bad_write))
absolute-win_absolute_example =
    absolute-win_absolute call_of_any full_of_any (record { m_path = codes "x" }) laws_of_any
      (no_nul 515) (ltb→lt 515 520 refl)

waits_for_end : ends_line ([] ++ c_string (codes "Unload all")) ≡ false
unfolding ends_line c_string
waits_for_end = refl

controller_did_receive-joined_example :
    (controller_did_receive
        (after_pieces new_controller_handler (codes "Unload all" ∷ []))
        (codes " plugins\r\n")
      ≡ heard (joined [] (codes "Unload all" ∷ []) ++ c_string (codes " plugins\r\n")))
    × (ends_line
          (controller_did_receive
            (after_pieces new_controller_handler (codes "Unload all" ∷ []))
            (codes " plugins\r\n")).0.m_data
        ≡ false)
controller_did_receive-joined_example =
    controller_did_receive-joined new_controller_handler (codes "Unload all" ∷ [])
      (codes " plugins\r\n") (waits_for_end, tt)

-- A folder in a folder.
abbrev nested : FileSystem
nested = record unix {
  read_dir = λ folder.
      if bytes_eq folder (codes "p")
      then some (codes ".." ∷ codes "a" ∷ codes "x.so" ∷ [])
      else some (codes ".." ∷ []);
}

abbrev nested_entries : Entries
nested_entries =
    plain (codes "..")
      (folder_with (codes "a") (plain (codes "..") no_more) (plain (codes "x.so") no_more))

all_subfolders-preorder_example :
    all_subfolders nested 2 (codes "p") ≡ ok (preorder (codes "p") nested_entries)
all_subfolders-preorder_example =
    all_subfolders-preorder nested (codes "p") nested_entries 1 refl
      (refl, (refl, refl, (refl, tt), (refl, tt))) (omega arith)

-- The same folders as Windows lists them, and as UNIX does.
abbrev windows_nested : Find
windows_nested pattern =
    if bytes_eq pattern (codes "p/*")
    then some listed
    else some (record { file_name = codes ".."; is_directory = true } ∷ [])

abbrev unix_nested : FileSystem
unix_nested = record unix {
  read_dir = λ folder.
      if bytes_eq (folder ++ codes "/*") (codes "p/*")
      then some (codes ".." ∷ codes "a" ∷ codes "x.so" ∷ [])
      else some (codes ".." ∷ []);
}

nested-SameEntries : (path : Bytes) → SameEntries unix_nested windows_nested path
nested-SameEntries path = elim (Bool-cases (bytes_eq (path ++ codes "/*") (codes "p/*"))) [
  | inl here ↦ record { lists = rw here refl; tells = rw here (refl, (refl, (refl, tt))) }
  | inr other ↦ record { lists = rw other refl; tells = rw other (refl, tt) }
]

all_subfolders-win_all_subfolders_example :
    (all_subfolders unix_nested 2 (codes "p") ≡ ok (preorder (codes "p") nested_entries))
    × (win_all_subfolders windows_nested 2 (codes "p") ≡ ok (preorder (codes "p") nested_entries))
all_subfolders-win_all_subfolders_example =
    all_subfolders-win_all_subfolders unix_nested windows_nested (codes "p") nested_entries 1
      nested-SameEntries refl (refl, (refl, refl, (refl, tt), (refl, tt))) (omega arith)
