-- ===== src/Base/Logger.antt =====
-- The log (base/logger.h, logger.cpp): `Log`, the static logger and the stream it writes to. What is
-- written is kept as the pieces of text, each with its stream, in their order.
pub mod Start
pub mod Laws
pub mod Opening
use mod_server.Prelude.{
  ℕ, ◌≡◌, refl, Bool, Option, none, some, List, [], ◌∷◌, ◌++◌, append_assoc, Bytes,
}
use mod_server.Prelude.Fault.{Result, ok, fault, failed_assert, ◌>>=◌}
use mod_server.Prelude.Text.{codes}
use mod_server.PluginApi.Log.{LogSeverity, verbose, info, warn, err}
use mod_server.Base.Encoding.{WideChars, utf16_to_utf8}

-- `std::cout`, or the file of a name.
pub data Stream : Type 0 where
  console : Stream
  log_file : Bytes → Stream

pub record Logger : Type 0 where
  pub m_out : Option Stream
  pub m_delete_out : Bool

-- The static `m_logger`, and what was written.
pub record Logs : Type 0 where
  pub m_logger : Option Logger
  pub written : List (Stream × Bytes)

-- `out << text`.
abbrev pub put : Stream → Bytes → Logs → Logs
put out text logs = record logs { written = logs.written ++ (out, text) ∷ [] }

-- `GetLogger`.
unfoldable pub get_logger : Logs → Result Logger
get_logger logs = elim logs.m_logger [ none ↦ fault failed_assert | some logger ↦ ok logger ]

-- `Stream`.
unfoldable pub stream : Logger → Result Stream
stream logger = elim logger.m_out [ none ↦ fault failed_assert | some out ↦ ok out ]

-- `level`; the last case is for values that the enumeration does not have.
abbrev pub level : LogSeverity → Bytes
level verbose = codes "VERBOSE"
level info = codes "INFO"
level warn = codes "WARN"
level err = codes "ERROR"

-- `Log`: the stream, on which a new line with the level was begun.
unfoldable pub log : LogSeverity → Logs → Result (Stream × Logs)
unfolding get_logger stream
log sev logs = do
  logger ← get_logger logs
  out ← stream logger
  ok (out, put out (codes "\n" ++ level sev ++ codes ": ") logs)

-- `Log(sev) << text`.
unfoldable pub log_text : LogSeverity → Bytes → Logs → Result Logs
unfolding log
log_text sev text logs = do (out, logs') ← log sev logs; ok (put out text logs')

-- `operator<<` of a wide string.
unfoldable pub put_wide :
    {Wide : Type 0} → WideChars Wide → (ℕ → Bytes) → Stream → Option Wide → Logs → Result Logs
put_wide lib raw out s logs = do text ← utf16_to_utf8 lib raw s; ok (put out text logs)

-- `UninitLog`; the destructor closes a file.
unfoldable pub uninit_log : Logs → Logs
uninit_log logs = record logs { m_logger = none }

-- The logger is there and writes to this stream.
abbrev pub WritesTo : Stream → Logs → Type 0
WritesTo out logs =
    (d : Bool) × (logs.m_logger ≡ some (record { m_out = some out; m_delete_out = d }))

pub log-WritesTo :
    (out : Stream) (sev : LogSeverity) (logs : Logs)
    → WritesTo out logs
    → log sev logs ≡ ok (out, put out (codes "\n" ++ level sev ++ codes ": ") logs)
unfolding log get_logger stream
log-WritesTo out sev logs (d, e) = rw e refl

pub log_text-WritesTo :
    (out : Stream) (sev : LogSeverity) (text : Bytes) (logs : Logs)
    → WritesTo out logs
    → log_text sev text logs
      ≡ ok (put out text (put out (codes "\n" ++ level sev ++ codes ": ") logs))
unfolding log_text
log_text-WritesTo out sev text logs w = rw (log-WritesTo out sev logs w) refl

-- Without a logger `Log` fails an assertion.
pub log_uninit : (sev : LogSeverity) (logs : Logs) → log sev (uninit_log logs) ≡ fault failed_assert
unfolding log get_logger uninit_log
log_uninit sev logs = refl
