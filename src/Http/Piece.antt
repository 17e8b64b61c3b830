-- ===== src/Http/Piece.antt =====
-- `StringPiece` of server_plugin/http/request.h and request.cpp, and what request.cpp reads off one.
-- A pointer is the memory from the byte it points at on, and `none` is NULL.
pub mod Laws
use mod_server.Prelude.Memory.{memory, read_bytes}
use mod_server.Prelude.{
  ℕ, zero, suc, ◌+◌, ◌≤◌, ◌≡◌, refl, Bool, true, false, not, ◌||◌, Option, none, some, List, [],
  ◌∷◌, ◌++◌, arith, ◌==◌, if◌then◌else◌, Bytes, length, take,
}
use mod_server.Prelude.Fault.{Result, ok, fault, bad_read, ◌>>=◌}
use mod_server.Prelude.Text.{codes}

pub record StringPiece : Type 0 where
  pub m_start : Option Bytes
  pub m_length : ℕ

-- `StringPiece()`.
abbrev pub empty_piece : StringPiece
empty_piece = record { m_start = none; m_length = 0 }

-- A C string literal: its bytes and the NUL behind them.
abbrev pub literal : Bytes → Option Bytes
literal s = some (s ++ 0 ∷ [])

abbrev pub is_null : Option Bytes → Bool
is_null none = true
is_null (some m) = false

-- `StringPiece::ToString`.
unfoldable pub to_string : StringPiece → Result Bytes
unfolding read_bytes
to_string p =
    if p.m_length == 0 || is_null p.m_start then ok [] else read_bytes p.m_length (memory p.m_start)

-- `for (i = 0; i < n; i++) if (other[i] != mine[i]) return false; return true;`
unfoldable pub same_bytes : ℕ → Bytes → Bytes → Result Bool
same_bytes zero a b = ok true
same_bytes (suc n) (x ∷ a) (y ∷ b) = if x == y then same_bytes n a b else ok false
same_bytes (suc n) _ _ = fault bad_read

-- `StringPiece::operator==`.
unfoldable pub piece_eq : StringPiece → StringPiece → Result Bool
unfolding same_bytes
piece_eq p other =
    if not (other.m_length == p.m_length)
    then ok false
    else same_bytes p.m_length (memory other.m_start) (memory p.m_start)

pub data RequestMethod : Type 0 where
  get invalid_method : RequestMethod

pub data HttpVersion : Type 0 where
  http_1_0 http_1_1 invalid_version : HttpVersion

-- `MethodFromStringPiece`.
unfoldable pub method_from_string_piece : StringPiece → Result RequestMethod
unfolding piece_eq
method_from_string_piece p = do
  is_get ← piece_eq p (record { m_start = literal (codes "GET"); m_length = 3 })
  ok (if is_get then get else invalid_method)

-- `HttpVerFromStringPiece`.
unfoldable pub http_ver_from_string_piece : StringPiece → Result HttpVersion
unfolding piece_eq
http_ver_from_string_piece p = do
  is_1_1 ← piece_eq p (record { m_start = literal (codes "HTTP/1.1"); m_length = 8 })
  if is_1_1 then ok http_1_1 else do
    is_1_0 ← piece_eq p (record { m_start = literal (codes "HTTP/1.0"); m_length = 8 })
    ok (if is_1_0 then http_1_0 else invalid_version)
