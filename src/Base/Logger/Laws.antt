-- ===== src/Base/Logger/Laws.antt =====
-- What the start of the log and the queries of the system write, and where.
use mod_server.Prelude.{
  ℕ, ◌*◌, ◌/◌, ◌^◌, ◌≡◌, ◌<◌, refl, Option, none, some, [], ◌++◌, Bytes, lt→ltb,
}
use mod_server.Prelude.Int.{ℤ, pos, negsuc}
use mod_server.Prelude.Fault.{Result, ok}
use mod_server.Prelude.Text.{codes}
use mod_server.Prelude.Decimal.{to_string as decimal}
use mod_server.PluginApi.Log.{warn, info}
use mod_server.Base.Logger.{
  Stream, Logs, put, log_text, level, WritesTo, log-WritesTo, log_text-WritesTo,
}
use mod_server.Base.SystemInfo.{
  System, name_or_warn, os_name, os_arch, os_version, product, no_memory, memory_of, query_memory,
  ram_mb, ram_installed_mb, ram_available_mb,
}
use mod_server.Base.Logger.Start.{log_program_info}

-- Pieces of text were written, all to this stream.
pub data Grew (out : Stream) (old : Logs) : Logs → Type 0 where
  nothing : Grew out old old
  piece : {logs : Logs} (text : Bytes) → Grew out old logs → Grew out old (put out text logs)

Grew-trans : {out : Stream} {a b c : Logs} → Grew out a b → Grew out b c → Grew out a c
Grew-trans g nothing = g
Grew-trans g (piece text h) = piece text (Grew-trans g h)

pub Grew-WritesTo : {out : Stream} {a b : Logs} → WritesTo out a → Grew out a b → WritesTo out b
Grew-WritesTo w nothing = w
Grew-WritesTo w (piece text g) = Grew-WritesTo w g

-- The call returns and writes to no other stream.
abbrev Appends : {A : Type 0} → Stream → (Logs → Result (A × Logs)) → Type 0
Appends {A} out f =
    (old logs : Logs)
    → WritesTo out old
    → Grew out old logs
    → (a : A) × (logs' : Logs) × (f logs ≡ ok (a, logs')) × Grew out old logs'

log_text-Grew :
    (out : Stream) (old logs : Logs) (text : Bytes)
    → WritesTo out old
    → Grew out old logs
    → (logs' : Logs) × (log_text warn text logs ≡ ok logs') × Grew out old logs'
log_text-Grew out old logs text w g =
    (_, log_text-WritesTo out warn text logs (Grew-WritesTo w g), piece text (piece _ g))

-- No product of pages and page size is too large.
abbrev pub Fits : System → ℤ → Type 0
Fits sys page = (a b : ℕ) → page ≡ pos a → sys.page_size ≡ pos b → a * b < 2 ^ 63

module _ (sys : System) (out : Stream) where
  name_or_warn-Appends :
      (complaint : Bytes) (name : Option Bytes) → Appends out (name_or_warn sys complaint name)
  unfolding name_or_warn
  name_or_warn-Appends complaint none old logs w g =
      let (logs', e, g') = log_text-Grew out old logs (complaint ++ decimal sys.errno) w g in
      ([], logs', rw e refl, g')
  name_or_warn-Appends complaint (some name) old logs w g = (name, logs, refl, g)

  no_memory-Appends : Appends out (no_memory sys)
  unfolding no_memory
  no_memory-Appends old logs w g =
      let (logs', e, g') =
        log_text-Grew out old logs (codes "Didn't query RAM " ++ decimal sys.errno) w g in
      (0, logs', rw e refl, g')

  memory_of-Appends :
      (page size : ℤ)
      → ((a b : ℕ) → page ≡ pos a → size ≡ pos b → a * b < 2 ^ 63)
      → Appends out (memory_of sys page size)
  unfolding memory_of product
  memory_of-Appends (pos a) (pos b) fits old logs w g =
      let small = lt→ltb (a * b) (2 ^ 63) (fits a b refl refl) in (a * b, logs, rw small refl, g)
  memory_of-Appends (pos a) (negsuc b) fits old logs w g = no_memory-Appends old logs w g
  memory_of-Appends (negsuc a) size fits old logs w g = no_memory-Appends old logs w g

  ram_mb-Appends : (page : ℤ) → Fits sys page → Appends out (ram_mb sys page)
  unfolding ram_mb query_memory
  ram_mb-Appends page fits old logs w g =
      let (bytes, logs', e, g') = memory_of-Appends page sys.page_size fits old logs w g in
      (bytes / 1024 / 1024, logs', rw e refl, g')

  -- The lines on the program and the system.
  pub log_program_info-Grew :
      (old : Logs)
      → Fits sys sys.phys_pages
      → Fits sys sys.avphys_pages
      → WritesTo out old
      → (logs' : Logs) × (log_program_info sys old ≡ ok logs') × Grew out old logs'
  unfolding log_program_info os_name os_arch ram_installed_mb ram_available_mb
  log_program_info-Grew old phys avphys w =
      let e1 = log-WritesTo out info old w in
      let (name, l3, e3, g3) =
        name_or_warn-Appends (codes "Didn't query OS name: ") sys.sysname old _ w (
          piece (codes "Basic info:\nExecutable: mod_server\nVersion: 0.0.1\nOS: ")
            (piece (codes "\n" ++ level info ++ codes ": ") nothing)) in
      let (arch, l5, e5, g5) =
        name_or_warn-Appends (codes "Didn't get proc arch ") sys.machine old _ w
          (piece (name ++ codes "\nOS Version: " ++ os_version sys ++ codes "\nArch: ") g3) in
      let (installed, l7, e7, g7) =
        ram_mb-Appends sys.phys_pages phys old _ w (piece (arch ++ codes "\nMemory: ") g5) in
      let (available, l9, e9, g9) =
        ram_mb-Appends sys.avphys_pages avphys old _ w
          (piece (decimal installed ++ codes "MB, (avail: ") g7) in
      (
        put out (decimal available ++ codes " MB)") l9,
        rw (e1, e3, e5, e7, e9) refl,
        piece (decimal available ++ codes " MB)") g9,
      )
