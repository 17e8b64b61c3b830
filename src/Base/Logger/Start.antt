-- ===== src/Base/Logger/Start.antt =====
-- The start of the log: `InitLog` with the name of the file and the lines on the program and the system
-- (base/logger.cpp). The pieces of a line are evaluated from left to right.
use mod_server.Prelude.{
  ℕ, suc, ◌+◌, ◌/◌, ◌%◌, Bool, true, false, some, [], ◌∷◌, ◌++◌, Bytes, if◌then◌else◌,
}
use mod_server.Prelude.Fault.{Result, ok, ◌>>=◌}
use mod_server.Prelude.Text.{codes}
use mod_server.Prelude.Decimal.{to_string as decimal}
use mod_server.PluginApi.Log.{info}
use mod_server.Base.Logger.{Stream, console, log_file, Logs, put, log}
use mod_server.Base.SystemInfo.{
  System, os_name, os_version, os_arch, ram_installed_mb, ram_available_mb,
}

-- `struct tm`, as far as it is used; months from 0, years from 1900.
pub record Tm : Type 0 where
  pub tm_mday : ℕ
  pub tm_mon : ℕ
  pub tm_year : ℕ
  pub tm_hour : ℕ
  pub tm_min : ℕ

abbrev pub two_digits : ℕ → Bytes
two_digits n = (b'0' + n / 10 % 10) ∷ (b'0' + n % 10) ∷ []

-- `FormFileName`: what `strftime` makes of "sthttps_%d%m%y_%H%M.log".
unfoldable pub form_file_name : Tm → Bytes
form_file_name t =
    codes "sthttps_"
    ++ two_digits t.tm_mday
    ++ two_digits (suc t.tm_mon)
    ++ two_digits (t.tm_year % 100)
    ++ codes "_"
    ++ two_digits t.tm_hour
    ++ two_digits t.tm_min
    ++ codes ".log"

-- `LogProgramInfo`.
unfoldable pub log_program_info : System → Logs → Result Logs
log_program_info sys l0 = do
  (out, l1) ← log info l0
  let l2 = put out (codes "Basic info:\nExecutable: mod_server\nVersion: 0.0.1\nOS: ") l1
  (name, l3) ← os_name sys l2
  let l4 = put out (name ++ codes "\nOS Version: " ++ os_version sys ++ codes "\nArch: ") l3
  (arch, l5) ← os_arch sys l4
  let l6 = put out (arch ++ codes "\nMemory: ") l5
  (installed, l7) ← ram_installed_mb sys l6
  let l8 = put out (decimal installed ++ codes "MB, (avail: ") l7
  (available, l9) ← ram_available_mb sys l8
  ok (put out (decimal available ++ codes " MB)") l9)

-- `new Logger(…)`.
abbrev pub set_logger : Stream → Bool → Logs → Logs
set_logger out delete_out logs = record logs {
  m_logger = some (record { m_out = some out; m_delete_out = delete_out });
}

-- What follows once there is a logger.
unfoldable pub with_info : System → Logs → Result (Bool × Logs)
with_info sys logs = do logs' ← log_program_info sys logs; ok (true, logs')

-- `InitLog`, where `opens` says which files can be opened.
unfoldable pub init_log : System → (Bytes → Bool) → Tm → Bool → Logs → Result (Bool × Logs)
init_log sys opens now log_to_file logs =
    let name = form_file_name now in
    let to_file = with_info sys (set_logger (log_file name) true logs) in
    let to_console = with_info sys (set_logger console false logs) in
    if log_to_file then if opens name then to_file else ok (false, logs) else to_console
