-- ===== src/Base/Logger/Opening.antt =====
-- What `InitLog` leaves, and the names of log files.
use mod_server.Prelude.{
  ℕ, suc, ◌*◌, ◌/◌, ◌%◌, ◌^◌, ◌≡◌, ◌<◌, refl, ap, Bool, true, false, Bool-cases, inl, inr, not,
  ◌||◌, Bytes, arith, ltb, get_or, if◌then◌else◌,
}
use mod_server.Prelude.Int.{pos}
use mod_server.Prelude.Fault.{ok, fault, overflow}
use mod_server.Base.Logger.{Stream, console, log_file, Logs, WritesTo}
use mod_server.Base.Logger.Start.{Tm, two_digits, form_file_name, with_info, set_logger, init_log}
use mod_server.Base.Logger.Laws.{Grew, Grew-WritesTo, Fits, log_program_info-Grew}
use mod_server.Base.SystemInfo.{System, ram_installed_mb, ram_mb, query_memory, memory_of, product}

-- Where the log goes.
abbrev pub target : Bool → Tm → Stream
target log_to_file now = if log_to_file then log_file (form_file_name now) else console

module _ (sys : System) (phys : Fits sys sys.phys_pages) (avphys : Fits sys sys.avphys_pages) where
  with_info-Grew :
      (out : Stream) (logs : Logs)
      → WritesTo out logs
      → (logs' : Logs) × (with_info sys logs ≡ ok (true, logs'))
        × Grew out logs logs'
        × WritesTo out logs'
  unfolding with_info
  with_info-Grew out logs w =
      let (logs', e, g) = log_program_info-Grew sys out logs phys avphys w in
      (logs', rw e refl, g, Grew-WritesTo w g)

  -- Where the system's memory fits into a `long long`, `InitLog` returns. It fails exactly where the log
  -- goes to a file that cannot be opened, and then changes nothing; otherwise there is a logger, which
  -- writes to the file or to the console, and only there was anything written.
  pub init_log-WritesTo :
      (opens : Bytes → Bool) (now : Tm) (log_to_file : Bool) (logs : Logs)
      → (logs' : Logs) × (init_log sys opens now log_to_file logs ≡ (
          if not log_to_file || opens (form_file_name now)
          then ok (true, logs')
          else ok (false, logs)))
        × Grew (target log_to_file now) (set_logger (target log_to_file now) log_to_file logs) logs'
        × WritesTo (target log_to_file now) logs'
  unfolding init_log
  init_log-WritesTo opens now true logs =
      let name = form_file_name now in
      let (logs', e, g, w) =
        with_info-Grew (log_file name) (set_logger (log_file name) true logs) (true, refl) in
      (logs', rw e refl, g, w)
  init_log-WritesTo opens now false logs =
      let (logs', e, g, w) = with_info-Grew console (set_logger console false logs) (false, refl) in
      (logs', e, g, w)

-- `RAMInstalledMB`, where `sysconf` answers: whole megabytes of all pages, if their bytes fit into a
-- `long long`, else the product overflows.
pub ram_installed_mb-product :
    (sys : System) (a b : ℕ) (logs : Logs)
    → sys.phys_pages ≡ pos a
    → sys.page_size ≡ pos b
    → ram_installed_mb sys logs
      ≡ (if ltb (a * b) (2 ^ 63) then ok (a * b / 2 ^ 20, logs) else fault overflow)
unfolding ram_installed_mb ram_mb query_memory memory_of product
ram_installed_mb-product sys a b logs e f =
    rw (e, f)
      (elim (Bool-cases (ltb (a * b) (2 ^ 63))) [
        | inl small ↦ rw small (ap (λ (n : ℕ). ok (n, logs)) (shift_twice (a * b)))
        | inr large ↦ rw large refl
      ])
  where
    shift_twice : (n : ℕ) → n / 1024 / 1024 ≡ n / 1048576
    shift_twice n = omega arith

two_digits_same :
    (a b : ℕ)
    → a < 100
    → b < 100
    → get_or (two_digits a) 0 0 ≡ get_or (two_digits b) 0 0
    → get_or (two_digits a) 1 0 ≡ get_or (two_digits b) 1 0
    → a ≡ b
two_digits_same a b small_a small_b tens ones = omega arith

-- A time as the calendar has it.
abbrev pub IsTime : Tm → Type 0
IsTime t = (t.tm_mday < 100) × (t.tm_mon < 12) × (t.tm_hour < 24) × (t.tm_min < 60)

-- The names of the log files of two different minutes of a century differ.
pub form_file_name_inj :
    (s t : Tm)
    → IsTime s
    → IsTime t
    → form_file_name s ≡ form_file_name t
    → (s.tm_mday ≡ t.tm_mday)
      × (s.tm_mon ≡ t.tm_mon)
      × (s.tm_year % 100 ≡ t.tm_year % 100)
      × (s.tm_hour ≡ t.tm_hour)
      × (s.tm_min ≡ t.tm_min)
unfolding form_file_name
form_file_name_inj s t (ds, ms, hs, ns) (dt, mt, ht, nt) e =
    let at : (i : ℕ) → get_or (form_file_name s) i 0 ≡ get_or (form_file_name t) i 0 =
      λ i. ap (λ (name : Bytes). get_or name i 0) e in
    (
      two_digits_same s.tm_mday t.tm_mday ds dt (at 8) (at 9),
      suc_same (
          two_digits_same (suc s.tm_mon) (suc t.tm_mon) (omega arith) (omega arith) (at 10)
            (at 11)),
      two_digits_same (s.tm_year % 100) (t.tm_year % 100) (omega arith) (omega arith) (at 12)
          (at 13),
      two_digits_same s.tm_hour t.tm_hour (omega arith) (omega arith) (at 15) (at 16),
      two_digits_same s.tm_min t.tm_min (omega arith) (omega arith) (at 17) (at 18),
    )
  where
    suc_same : {a b : ℕ} → suc a ≡ suc b → a ≡ b
    suc_same e = omega arith
