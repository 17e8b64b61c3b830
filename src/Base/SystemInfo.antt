-- ===== src/Base/SystemInfo.antt =====
-- `SystemInfo` (base/os_info.h, os_info_unix.cpp). What the system answers is a parameter.
use mod_server.Prelude.{
  ℕ, ◌*◌, ◌/◌, ◌^◌, Option, none, some, [], ◌∷◌, ◌++◌, Bytes, ltb, ◌==◌, if◌then◌else◌,
}
use mod_server.Prelude.Int.{ℤ, pos}
use mod_server.Prelude.Fault.{Result, ok, fault, overflow, ◌>>=◌}
use mod_server.Prelude.Text.{codes}
use mod_server.Prelude.Decimal.{to_string as decimal}
use mod_server.PluginApi.Log.{warn}
use mod_server.Base.Logger.{Logs, log_text}

-- `uname`, the file /proc/sys/kernel/version, `sysconf` and `errno`, which a failed call leaves.
pub record System : Type 0 where
  pub sysname : Option Bytes
  pub machine : Option Bytes
  pub version_file : Option Bytes
  pub phys_pages : ℤ
  pub avphys_pages : ℤ
  pub page_size : ℤ
  pub errno : ℕ

module _ (sys : System) where
  -- What `OSName` and `OSArch` do with the answer of `uname`.
  unfoldable pub name_or_warn : Bytes → Option Bytes → Logs → Result (Bytes × Logs)
  name_or_warn complaint none logs = do
    logs' ← log_text warn (complaint ++ decimal sys.errno) logs
    ok ([], logs')
  name_or_warn complaint (some name) logs = ok (name, logs)

  -- `OSName`.
  unfoldable pub os_name : Logs → Result (Bytes × Logs)
  os_name logs = name_or_warn (codes "Didn't query OS name: ") sys.sysname logs

  -- `OSArch`.
  unfoldable pub os_arch : Logs → Result (Bytes × Logs)
  os_arch logs = name_or_warn (codes "Didn't get proc arch ") sys.machine logs

  -- `std::getline`: up to the end of the line.
  unfoldable pub first_line : Bytes → Bytes
  first_line [] = []
  first_line (c ∷ text) = let rest = first_line text in if c == b'\n' then [] else c ∷ rest

  -- `OSVersion`.
  unfoldable pub os_version : Bytes
  os_version = elim sys.version_file [ none ↦ [] | some text ↦ first_line text ]

  -- The product of two `long long`, none of them negative.
  unfoldable pub product : ℕ → ℕ → Result ℕ
  product a b = if ltb (a * b) (2 ^ 63) then ok (a * b) else fault overflow

  unfoldable pub no_memory : Logs → Result (ℕ × Logs)
  no_memory logs = do
    logs' ← log_text warn (codes "Didn't query RAM " ++ decimal sys.errno) logs
    ok (0, logs')

  unfoldable pub memory_of : ℤ → ℤ → Logs → Result (ℕ × Logs)
  memory_of (pos pages) (pos size) logs = do bytes ← product pages size; ok (bytes, logs)
  memory_of _ _ logs = no_memory logs

  -- `QueryMemory`, on the answer to the setting; the result is never negative.
  unfoldable pub query_memory : ℤ → Logs → Result (ℕ × Logs)
  query_memory page logs = memory_of page sys.page_size logs

  unfoldable pub ram_mb : ℤ → Logs → Result (ℕ × Logs)
  ram_mb page logs = do (bytes, logs') ← query_memory page logs; ok (bytes / 1024 / 1024, logs')

  -- `RAMInstalledMB`.
  unfoldable pub ram_installed_mb : Logs → Result (ℕ × Logs)
  ram_installed_mb logs = ram_mb sys.phys_pages logs

  -- `RAMAvailableMB`.
  unfoldable pub ram_available_mb : Logs → Result (ℕ × Logs)
  ram_available_mb logs = ram_mb sys.avphys_pages logs
