-- ===== src/Server/Session.antt =====
-- Sessions (server_core/session.h, session.cpp, tcp_session.h, tcp_session.cpp) but for
-- `AcceptorSession::OnRead`, which changes the server. A method gives its result and what it stores
-- through `err`.
use mod_server.Prelude.Memory.{memory, overlay, read_bytes, write_at}
use mod_server.Prelude.{
  ℕ, arith, ◌-◌, ◌%◌, ◌^◌, ◌<◌, ◌≡◌, refl, lt→ltb, Bool, true, false, not, Option, none, some, ltb,
  if◌then◌else◌, Bytes,
}
use mod_server.Prelude.Int.{ℤ, pos, negsuc}
use mod_server.Prelude.Fault.{Result, ok, fault, null_pointer, ◌>>=◌}
use mod_server.PluginApi.DataChunk.{DataChunk, buf_size}
use mod_server.PluginApi.Handler.{ProtocolHandler}
use mod_server.Socket.Net.{Net}
use mod_server.Socket.TcpSocket.{Socket, send, receive, destroy}

-- The subclass; an acceptor knows its plugin, by its place among the plugins.
pub data Kind : Type 0 where
  connection : Kind
  acceptor : ℕ → Kind

-- `m_protoHandler` is NULL in an acceptor.
pub record Session (H : Type 0) : Type 0 where
  pub m_sock : Socket
  pub m_proto_handler : Option H
  pub kind : Kind

-- `(*p).…` on a handler.
abbrev pub deref {ℓ} : {A : Type ℓ} → Option A → Result A
deref none = fault null_pointer
deref (some a) = ok a

-- `rc > 0`.
abbrev pub is_pos : ℤ → Bool
is_pos (pos n) = ltb 0 n
is_pos (negsuc n) = false

-- A `size_t` as an `int`, of 32 bits.
unfoldable pub to_int : ℕ → ℤ
to_int n = let low = n % 2 ^ 32 in if ltb low (2 ^ 31) then pos low else negsuc (2 ^ 32 - 1 - low)

-- An `int` as a `size_t`, of 64 bits.
unfoldable pub to_size : ℤ → ℕ
to_size (pos n) = n
to_size (negsuc n) = 2 ^ 64 - 1 - n

-- The size that `send` is given: `Send` takes an `int` and passes it on as a `size_t`.
unfoldable pub send_size : ℕ → ℕ
unfolding to_int to_size
send_size n = to_size (to_int n)

pub send_size-fits : (n : ℕ) → n < 2 ^ 31 → send_size n ≡ n
unfolding send_size to_int to_size
send_size-fits n small =
    let low : n % 2 ^ 32 ≡ n = omega (arith, small) in rw (low, lt→ltb n (2 ^ 31) small) refl

module _ {W H : Type 0} (net : Net W) (ops : ProtocolHandler H) where
  open ops use {
    has_data_to_send, did_receive, did_send, data_to_send, data_to_send_size, allocate_chunk,
    discard_chunk,
  }

  -- `HasDataToSend` of both classes.
  unfoldable pub session_has_data : Session H → Result Bool
  session_has_data s = elim s.kind [
    | acceptor plugin ↦ ok false
    | connection ↦ do h ← deref s.m_proto_handler; ok (has_data_to_send h)
  ]

  -- `CanRead` of both classes.
  unfoldable pub can_read : Session H → Result Bool
  unfolding session_has_data
  can_read s = elim s.kind [
    | acceptor plugin ↦ ok true
    | connection ↦ do busy ← session_has_data s; ok (not busy)
  ]

  -- `if (sent > 0) DidSend(sent);`
  unfoldable pub after_send : H → ℤ → Result H
  after_send h rc = if is_pos rc then did_send h rc else ok h

  -- `ConnectionSession::OnWrite`, where the size is narrowed to the `int` of `Send`: result, error, session and world.
  unfoldable pub connection_on_write : Session H → W → Result (ℤ × ℤ × Session H × W)
  connection_on_write s w = do
    h ← deref s.m_proto_handler
    text ← read_bytes (send_size (data_to_send_size h)) (memory (data_to_send h))
    let (rc, err, w') = send net s.m_sock text w
    h' ← after_send h rc
    ok (rc, err, record s { m_proto_handler = some h' }, w')

  -- `OnWrite` of both classes.
  unfoldable pub on_write : Session H → W → Result (ℤ × ℤ × Session H × W)
  on_write s w = elim s.kind [
    | acceptor plugin ↦ ok (pos 0, pos 0, s, w)
    | connection ↦ connection_on_write s w
  ]

  -- What `OnRead` does with the bytes of a chunk: the NUL behind them, then the handler.
  unfoldable pub took_bytes : H → DataChunk → Bytes → ℕ → Result H
  took_bytes h chunk text n = do
    buf ← write_at (overlay text chunk.m_buffer) n 0
    did_receive h (record { m_buffer = buf }) (pos n)

  unfoldable pub after_receive : H → DataChunk → ℤ × Bytes → Result H
  after_receive h chunk (pos n, text) =
      if ltb 0 n then took_bytes h chunk text n else ok (discard_chunk h chunk)
  after_receive h chunk (negsuc n, text) = ok (discard_chunk h chunk)

  -- `ConnectionSession::OnRead`.
  unfoldable pub connection_on_read : Session H → W → Result (ℤ × ℤ × Session H × W)
  connection_on_read s w = do
    h ← deref s.m_proto_handler
    let chunk = allocate_chunk h
    let (res, err, w') = receive net s.m_sock (buf_size chunk) w
    h' ← after_receive h chunk res
    ok (res.0, err, record s { m_proto_handler = some h' }, w')

  -- `~Session`: the handler is freed through the pointer, then the socket, which nobody else holds.
  unfoldable pub destroy_session : Session H → W → Result W
  destroy_session s w = do h ← deref s.m_proto_handler; ok (destroy net s.m_sock w)
