-- ===== src/Server/Failures.antt =====
-- What the sessions (server_core/tcp_session.cpp) do where a system call does not go well.
use mod_server.Prelude.Memory.{overlay, write_at}
use mod_server.Prelude.{
  ℕ, suc, ◌==◌, if◌then◌else◌, ◌^◌, ◌<◌, ◌≡◌, ◌≢◌, refl, some, [], ◌∷◌, ◌++◌, arith, Bytes, length,
  length-append, length-drop, drop,
}
use mod_server.Prelude.Int.{ℤ, pos, negsuc}
use mod_server.Prelude.Fault.{ok, fault, bad_write}
use mod_server.PluginApi.DataChunk.{m_buf_size}
use mod_server.Server.PluginCalls.{PluginCalls, IsCallable}
use mod_server.PluginApi.Handler.{ProtocolHandler}
use mod_server.Socket.Net.{Net}
use mod_server.Socket.TcpSocket.{receive}
use mod_server.Socket.TcpListener.{accept}
use mod_server.Server.Session.{Session, connection, took_bytes, after_receive, connection_on_read}
use mod_server.Server.Store.{Server, raise_max_fd, register_session}
use mod_server.Server.Loop.{acceptor_on_read}

module _ {W H : Type 0} (net : Net W) (ops : ProtocolHandler H) where
  raise_max_fd_failed : (m : ℕ) → m < 2 ^ 32 → raise_max_fd (negsuc 0) m ≡ 0
  unfolding raise_max_fd
  raise_max_fd_failed m h = ground arith

  -- Where `accept` fails and the calls on the plugin return, the result is still 1: a connection on the
  -- descriptor -1 joins the sessions, with the plugin's handler, the other sessions stay, and the number
  -- of descriptors that `select` looks at becomes 0.
  pub acceptor_on_read_failed :
      (calls : PluginCalls H) (plugin : ℕ) (s : Session H) (w : W) (srv : Server H)
      (c : IsCallable calls plugin)
      → (net.sys_accept s.m_sock.m_socket w).0 ≡ negsuc 0
      → srv.m_max_fd < 2 ^ 32
      → (err : ℤ) × (w' : W) × (srv' : Server H) × (t : Session H) × (acceptor_on_read net ops calls
            plugin s w srv
          ≡ ok (pos 1, err, w', srv'))
        × (srv'.m_max_fd ≡ 0)
        × (srv'.m_sessions ≡ srv.m_sessions ++ srv.next ∷ [])
        × (srv'.heap srv.next ≡ some t)
        × (t.m_sock.m_socket ≡ negsuc 0)
        × (t.kind ≡ connection)
        × (t.m_proto_handler ≡ some c.handler)
        × ((p : ℕ) → p ≢ srv.next → srv'.heap p ≡ srv.heap p)
  unfolding acceptor_on_read accept register_session
  acceptor_on_read_failed calls plugin s w srv c failed small =
      let t : Session H = record {
        m_sock = record { m_socket = negsuc 0 };
        m_proto_handler = some c.handler;
        kind = connection;
      } in
      let got = net.sys_accept s.m_sock.m_socket w in
      (
        net.errno got.1,
        got.1,
        record {
          m_sessions = srv.m_sessions ++ srv.next ∷ [];
          m_max_fd = raise_max_fd (negsuc 0) srv.m_max_fd;
          heap = λ q. if srv.next == q then some t else srv.heap q;
          next = suc srv.next;
        },
        t,
        ground (arith, failed, c.handler_is, c.name_is),
        raise_max_fd_failed srv.m_max_fd small,
        refl,
        ground arith,
        refl,
        refl,
        refl,
        λ p ne. ground (arith, ne),
      )

  -- Where `recv` fills the whole chunk, the NUL is written behind its end.
  pub connection_on_read_full :
      (s : Session H) (w : W) (h : H) (text : Bytes)
      → s.m_proto_handler ≡ some h
      → length (ops.allocate_chunk h).m_buffer ≡ m_buf_size
      → (net.sys_recv s.m_sock.m_socket m_buf_size w).0 ≡ (pos m_buf_size, text)
      → length text ≡ m_buf_size
      → connection_on_read net ops s w ≡ fault bad_write
  unfolding connection_on_read receive after_receive took_bytes write_at
  connection_on_read_full s w h text is_h room got len =
      let long : length (overlay text (ops.allocate_chunk h).m_buffer) ≡ m_buf_size = omega (
        arith,
        length-append text (drop (length text) (ops.allocate_chunk h).m_buffer),
        length-drop (length text) (ops.allocate_chunk h).m_buffer,
      ) in
      rw (is_h, got) (ground (arith, long))
