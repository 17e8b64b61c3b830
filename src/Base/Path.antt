-- ===== src/Base/Path.antt =====
-- `Path` (base/path.h, path_unix.cpp). `realpath` is a parameter: the resolved path, if there is one.
pub mod Windows
use mod_server.Prelude.{
  ℕ, ◌*◌, ◌≡◌, refl, Option, none, some, [], arith, Bytes, length, ltb, if◌then◌else◌,
}
use mod_server.Prelude.Fault.{Result, ok, fault, bad_write}

pub record FilePath : Type 0 where
  pub m_path : Bytes

-- `Path(path)`, `set_path` and `ToString`.
abbrev pub new_path : Bytes → FilePath
new_path path = record { m_path = path }

abbrev pub set_path : FilePath → Bytes → FilePath
set_path p path = record { m_path = path }

abbrev pub path_text : FilePath → Bytes
path_text p = p.m_path

-- `MAX_PATH*2`.
abbrev pub absolute_size : ℕ
absolute_size = 256 * 2

-- What `realpath` does with a buffer of so many bytes: the path and a NUL are written to it.
unfoldable pub resolve : ℕ → Option Bytes → Result (Option Bytes)
resolve size none = ok none
resolve size (some text) = if ltb (length text) size then ok (some text) else fault bad_write

abbrev pub or_empty_path : Option Bytes → Bytes
or_empty_path none = []
or_empty_path (some text) = text

-- `Absolute`.
unfoldable pub absolute : (Bytes → Option Bytes) → FilePath → Result Bytes
unfolding resolve
absolute realpath p = elim (resolve absolute_size (realpath p.m_path)) [
  | ok resolved ↦ ok (or_empty_path resolved)
  | fault why ↦ fault why
]

-- `Absolute` returns the resolved path, or nothing where there is none, as long as it has at most 511
-- bytes. A longer path is written past the end of the buffer.
pub absolute-realpath :
    (realpath : Bytes → Option Bytes) (p : FilePath)
    → absolute realpath p ≡ (
        if ltb (length (or_empty_path (realpath p.m_path))) 512
        then ok (or_empty_path (realpath p.m_path))
        else fault bad_write)
unfolding absolute resolve
absolute-realpath realpath p = by_cases (realpath p.m_path)
  where
    by_cases :
        (resolved : Option Bytes)
        → elim (resolve absolute_size resolved) [
          | ok answer ↦ ok (or_empty_path answer)
          | fault why ↦ fault why
        ]
          ≡ (if ltb (length (or_empty_path resolved)) 512
              then ok (or_empty_path resolved)
              else fault bad_write)
    by_cases none = refl
    by_cases (some text) = ground arith
