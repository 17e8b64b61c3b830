-- ===== src/Tests/Logger.antt =====
-- A log, its file and the texts in it.
use mod_server.Prelude.{
  ℕ, zero, suc, ◌*◌, ◌/◌, ◌%◌, ◌^◌, ◌≡◌, refl, true, false, not, ◌||◌, none, some, arith, ltb,
  ltb→lt, replicate, Bytes, length, if◌then◌else◌,
}
use mod_server.Prelude.Fault.{ok, fault, overflow, failed_assert}
use mod_server.Prelude.Text.{codes}
use mod_server.Base.Encoding.{WideChars, WideLaws, utf16_to_utf8, or_nothing, utf16_to_utf8-encoded}
use mod_server.Base.Logger.{Logs, WritesTo}
use mod_server.Base.Logger.Start.{Tm, form_file_name, set_logger, init_log}
use mod_server.Base.Logger.Laws.{Grew}
use mod_server.Base.Logger.Opening.{
  target, init_log-WritesTo, IsTime, form_file_name_inj, ram_installed_mb-product,
}
use mod_server.Base.SystemInfo.{ram_installed_mb}
use mod_server.Tests.Host.{small_system, phys-Fits, avphys-Fits, no_log}

abbrev letters : ℕ → Bytes
letters n = replicate n 65

abbrev sevens : ℕ → Bytes
sevens n = replicate n 7

-- Texts of one letter, so many times.
abbrev repeated : WideChars ℕ
repeated = record { needed_length = λ s. some (length (letters s)); written = λ s n. letters s }

abbrev repeated-laws : WideLaws repeated
repeated-laws = record {
  encoded = λ s. some (letters s);
  fails = λ s e. absurd (cc);
  measures = λ s t e. let same : letters s ≡ t = cc in rw (← same) refl;
  writes = λ s t e. let same : letters s ≡ t = cc in same;
}

length_replicate : (n : ℕ) → length (sevens n) ≡ n
length_replicate zero = refl
length_replicate (suc n) = omega (arith, length_replicate n)

-- A text that just does not fit the buffer on the stack.
utf16_to_utf8-encoded_example :
    (utf16_to_utf8 repeated sevens (some 120) ≡ ok (or_nothing (some (letters 120))))
    × (utf16_to_utf8 repeated sevens none ≡ fault failed_assert)
utf16_to_utf8-encoded_example = utf16_to_utf8-encoded repeated-laws sevens length_replicate 120

abbrev today : Tm
today = record { tm_mday = 5; tm_mon = 2; tm_year = 114; tm_hour = 9; tm_min = 30 }

init_log-WritesTo_example :
    (logs' : Logs) × (init_log small_system (λ name. true) today true no_log
      ≡ (if not true || true then ok (true, logs') else ok (false, no_log)))
    × Grew (target true today) (set_logger (target true today) true no_log) logs'
    × WritesTo (target true today) logs'
init_log-WritesTo_example =
    init_log-WritesTo small_system phys-Fits avphys-Fits (λ name. true) today true no_log

the_name : form_file_name today ≡ codes "sthttps_050314_0930.log"
unfolding form_file_name
the_name = refl

today-IsTime : IsTime today
today-IsTime = (ltb→lt 5 100 refl, ltb→lt 2 12 refl, ltb→lt 9 24 refl, ltb→lt 30 60 refl)

same_century : form_file_name today ≡ form_file_name (record today { tm_year = 214 })
unfolding form_file_name
same_century = refl

same_minute :
    (today.tm_mday ≡ 5)
    × (today.tm_mon ≡ 2)
    × (today.tm_year % 100 ≡ 14)
    × (today.tm_hour ≡ 9)
    × (today.tm_min ≡ 30)
same_minute =
    form_file_name_inj today (record today { tm_year = 214 }) today-IsTime today-IsTime same_century

sixteen_mb :
    ram_installed_mb small_system no_log
    ≡ (if ltb (4096 * 4096) (2 ^ 63) then ok (4096 * 4096 / 2 ^ 20, no_log) else fault overflow)
sixteen_mb = ram_installed_mb-product small_system 4096 4096 no_log refl refl
