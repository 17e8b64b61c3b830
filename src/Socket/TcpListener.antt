-- ===== src/Socket/TcpListener.antt =====
-- `TcpListener` (socket/tcp_listener.h, tcp_listener.cpp).
use mod_server.Prelude.{Bool, false, Bytes, if◌then◌else◌}
use mod_server.Prelude.Int.{ℤ, pos}
use mod_server.Socket.Net.{Net, SockAddr}
use mod_server.Socket.TcpSocket.{Socket, new_socket, is_zero}
use mod_server.Server.IpEndPoint
use mod_server.Server.IpEndPoint.{IpEndPoint}

pub record TcpListener : Type 0 where
  pub socket : Socket
  pub m_ep : IpEndPoint

-- `TcpListener(const IPEndPoint&)`, with the end point in memory that holds `raw`.
unfoldable pub listener_of_end_point : Bytes → IpEndPoint → TcpListener
listener_of_end_point raw ep = record {
  socket = new_socket;
  m_ep = IpEndPoint.end_point_of_c_string raw (IpEndPoint.ip ep) (IpEndPoint.port ep);
}

-- EINVAL as the system numbers it.
abbrev pub einval : ℤ
einval = pos 22

module _ {W : Type 0} (net : Net W) where
  open net use {sys_bind, sys_listen, sys_accept, errno, htons, inet_addr}

  -- `Bind`.
  unfoldable pub bind : TcpListener → W → Bool × ℤ × W
  bind l w =
      if IpEndPoint.is_valid inet_addr l.m_ep
      then (let addr : SockAddr = record {
        sin_port = htons (IpEndPoint.port l.m_ep);
        s_addr = inet_addr (IpEndPoint.ip l.m_ep);
      } in
          let (rc, w') = sys_bind l.socket.m_socket addr w in (is_zero rc, errno w', w'))
      else (false, einval, w)

  -- `Listen`.
  unfoldable pub listen : TcpListener → ℤ → W → Bool × ℤ × W
  listen l max_listeners w =
      let (rc, w') = sys_listen l.socket.m_socket max_listeners w in (is_zero rc, errno w', w')

  -- `Accept`.
  unfoldable pub accept : Socket → W → ℤ × ℤ × W
  accept s w = let (fd, w') = sys_accept s.m_socket w in (fd, errno w', w')
