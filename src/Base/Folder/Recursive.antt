-- ===== src/Base/Folder/Recursive.antt =====
-- `GetAllSubfolders` with recursion (base/path_unix.cpp). The recursion runs on fuel: one for each level
-- of folders is enough.
use mod_server.Prelude.{
  ℕ, zero, suc, ◌≤◌, ◌≡◌, refl, Bool, true, false, not, ◌&&◌, some, List, [], ◌∷◌, ◌++◌,
  if◌then◌else◌, arith, Bytes, leb,
}
use mod_server.Prelude.Fault.{Result, ok, fault, out_of_fuel, ◌>>=◌}
use mod_server.Base.Folder.{FileSystem, is_dots, is_folder, child, names_in}

module _ (fs : FileSystem) where
  -- Whether an entry is a folder to be listed.
  abbrev pub is_subfolder : Bytes → Bytes → Bool
  is_subfolder folder name = not (is_dots name) && is_folder (fs.stat_is_dir folder name)

  -- The loop: a subfolder is pushed before what is below it.
  unfoldable pub all_among :
      (Bytes → Result (List Bytes)) → Bytes → List Bytes → Result (List Bytes)
  all_among below folder [] = ok []
  all_among below folder (name ∷ names) = do
    inside ← if is_subfolder folder name then below (child folder name) else ok []
    rest ← all_among below folder names
    ok (if is_subfolder folder name then child folder name ∷ inside ++ rest else rest)

  -- What `GetAllSubfolders(subfolders, true)` pushes.
  unfoldable pub all_subfolders : ℕ → Bytes → Result (List Bytes)
  all_subfolders zero folder = fault out_of_fuel
  all_subfolders (suc levels) folder =
      all_among (all_subfolders levels) folder (names_in (fs.read_dir folder))

-- The entries of a folder, in their order: one that is not listed further, or a folder with its entries.
pub data Entries : Type 0 where
  no_more : Entries
  plain : Bytes → Entries → Entries
  folder_with : Bytes → Entries → Entries → Entries

abbrev pub names : Entries → List Bytes
names no_more = []
names (plain name rest) = name ∷ names rest
names (folder_with name inside rest) = name ∷ names rest

-- Every folder before what is in it, and that before the next folder.
abbrev pub preorder : Bytes → Entries → List Bytes
preorder path no_more = []
preorder path (plain name rest) = preorder path rest
preorder path (folder_with name inside rest) =
    child path name ∷ preorder (child path name) inside ++ preorder path rest

abbrev larger : ℕ → ℕ → ℕ
larger a b = if leb a b then b else a

abbrev pub depth : Entries → ℕ
depth no_more = 0
depth (plain name rest) = depth rest
depth (folder_with name inside rest) = larger (suc (depth inside)) (depth rest)

-- The file system has these entries in a folder.
abbrev pub Has : FileSystem → Bytes → Entries → Type 0
Has fs path no_more = Unit
Has fs path (plain name rest) = (is_subfolder fs path name ≡ false) × Has fs path rest
Has fs path (folder_with name inside rest) =
    (is_subfolder fs path name ≡ true)
    × (fs.read_dir (child path name) ≡ some (names inside))
    × Has fs (child path name) inside
    × Has fs path rest

module _ (fs : FileSystem) where
  larger_left : (a b n : ℕ) → larger a b ≤ n → a ≤ n
  larger_left a b n h = ground (arith, h)

  larger_right : (a b n : ℕ) → larger a b ≤ n → b ≤ n
  larger_right a b n h = ground (arith, h)

  all_among-preorder :
      (path : Bytes) (entries : Entries) (levels : ℕ)
      → Has fs path entries
      → depth entries ≤ levels
      → all_among fs (all_subfolders fs levels) path (names entries) ≡ ok (preorder path entries)
  unfolding all_among all_subfolders
  all_among-preorder path no_more levels has low = refl
  all_among-preorder path (plain name rest) levels (other, has) low =
      rw (other, all_among-preorder path rest levels has low) refl
  all_among-preorder path (folder_with name inside rest) zero has low =
      absurd (omega (arith, larger_left (suc (depth inside)) (depth rest) 0 low))
  all_among-preorder path (folder_with name inside rest) (suc levels) (listed, lists, has, has_rest)
        low =
      let low_inside = larger_left (suc (depth inside)) (depth rest) (suc levels) low in
      let low_rest = larger_right (suc (depth inside)) (depth rest) (suc levels) low in
      rw
        (
          listed,
          lists,
          all_among-preorder (child path name) inside levels has (omega arith),
          all_among-preorder path rest (suc levels) has_rest low_rest,
        )
        refl

  -- With one level of recursion for each level of folders and one more, the listing ends and gives every
  -- folder below the root once, each before those in it and those before the next.
  pub all_subfolders-preorder :
      (root : Bytes) (entries : Entries) (levels : ℕ)
      → fs.read_dir root ≡ some (names entries)
      → Has fs root entries
      → depth entries ≤ levels
      → all_subfolders fs (suc levels) root ≡ ok (preorder root entries)
  unfolding all_subfolders
  all_subfolders-preorder root entries levels lists has low =
      rw lists (all_among-preorder root entries levels has low)
