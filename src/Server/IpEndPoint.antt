-- ===== src/Server/IpEndPoint.antt =====
-- `IPEndPoint` (server_core/ip_endpoint.h, ip_endpoint.cpp): an address text in a buffer of 20 bytes,
-- and a port. `inet_addr` is a parameter.
pub mod Laws
use mod_server.Prelude.{
  ℕ, ◌+◌, ◌-◌, ◌%◌, ◌^◌, Bool, true, false, not, ◌&&◌, List, [], ◌∷◌, ◌++◌, ltb, ◌==◌,
  if◌then◌else◌, Bytes, length, take, drop, replicate,
}
use mod_server.Prelude.Fault.{Result, ok, assert, ◌>>◌, ◌>>=◌}

abbrev pub ip_size : ℕ
ip_size = 20

pub record IpEndPoint : Type 0 where
  pub m_ip : Bytes
  pub m_port : ℕ

-- The C string that begins at a piece of memory: the bytes before the first NUL.
unfoldable pub c_string : Bytes → Bytes
c_string [] = []
c_string (c ∷ m) = if c == 0 then [] else c ∷ c_string m

-- `snprintf(buf, sizeof buf, "%s", s)`: at most all but one byte of the buffer, then a NUL.
unfoldable pub snprintf : Bytes → Bytes → Bytes
snprintf buf s = let text = take (length buf - 1) s in text ++ 0 ∷ drop (length text + 1) buf

-- `IPEndPoint()`.
unfoldable pub new_end_point : IpEndPoint
new_end_point = record { m_ip = replicate ip_size 0; m_port = 0 }

-- `IPEndPoint(const char*, unsigned short)`, in memory that holds `raw`.
unfoldable pub end_point_of_c_string : Bytes → Bytes → ℕ → IpEndPoint
end_point_of_c_string raw ip port = record { m_ip = snprintf raw ip; m_port = port }

-- The assertion of the constructor and of `set_ip` on a `std::string`.
abbrev fits_assertion : Bytes → Bool
fits_assertion ip = ltb 0 (length ip) && ltb (length ip) (ip_size - 1)

-- `IPEndPoint(const std::string&, unsigned short)`.
unfoldable pub end_point_of_string : Bytes → Bytes → ℕ → Result IpEndPoint
end_point_of_string raw ip port = do
  assert (fits_assertion ip)
  ok (record { m_ip = snprintf raw (c_string ip); m_port = port })

-- `set_ip`.
unfoldable pub set_ip : IpEndPoint → Bytes → Result IpEndPoint
set_ip ep ip = do
  assert (fits_assertion ip)
  ok (record ep { m_ip = snprintf ep.m_ip (c_string ip) })

-- `set_port`: an `unsigned short`.
unfoldable pub set_port : IpEndPoint → ℕ → IpEndPoint
set_port ep port = record ep { m_port = port % 2 ^ 16 }

-- `ip()`, as the C string that it points at.
unfoldable pub ip : IpEndPoint → Bytes
ip ep = c_string ep.m_ip

-- `port()`.
abbrev pub port : IpEndPoint → ℕ
port ep = ep.m_port

abbrev pub inaddr_none : ℕ
inaddr_none = 2 ^ 32 - 1

-- `IsValid`, over `inet_addr`.
unfoldable pub is_valid : (Bytes → ℕ) → IpEndPoint → Bool
unfolding ip
is_valid inet_addr ep = if inet_addr (ip ep) == inaddr_none then false else not (ep.m_port == 0)
