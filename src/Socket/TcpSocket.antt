-- ===== src/Socket/TcpSocket.antt =====
-- `Socket` and `TcpSocket` (socket/socket.h, socket.cpp, tcp_socket.h, tcp_socket.cpp), the UNIX build.
-- A method gives its result, what it stores through `err`, and the world; the socket, if it changes.
use mod_server.Prelude.{ℕ, zero, Bool, true, false, not, ◌==◌, Bytes}
use mod_server.Prelude.Int.{ℤ, pos, negsuc}
use mod_server.Socket.Net.{Net}

-- `kInvalidSocket`, -1.
abbrev pub invalid_socket : ℤ
invalid_socket = negsuc 0

pub record Socket : Type 0 where
  pub m_socket : ℤ

-- `Socket()` and `TcpSocket(SOCK_TYPE)`.
abbrev pub new_socket : Socket
new_socket = record { m_socket = invalid_socket }

abbrev pub socket_of_handle : ℤ → Socket
socket_of_handle fd = record { m_socket = fd }

-- `handle()`.
abbrev pub handle : Socket → ℤ
handle s = s.m_socket

abbrev pub is_zero : ℤ → Bool
is_zero (pos n) = n == 0
is_zero (negsuc n) = false

-- `rc > -1`.
abbrev pub is_nonneg : ℤ → Bool
is_nonneg (pos n) = true
is_nonneg (negsuc n) = false

-- SHUT_RDWR, AF_INET and SOCK_STREAM as the system numbers them.
abbrev pub shut_rdwr : ℤ
shut_rdwr = pos 2

abbrev pub af_inet : ℤ
af_inet = pos 2

abbrev pub sock_stream : ℤ
sock_stream = pos 1

abbrev pub is_valid_handle : ℤ → Bool
is_valid_handle (negsuc zero) = false
is_valid_handle _ = true

-- `InitSockets` and `UninitSockets`.
abbrev pub init_sockets : ℤ
init_sockets = pos 0

abbrev pub uninit_sockets : ℤ
uninit_sockets = pos 0

module _ {W : Type 0} (net : Net W) where
  open net use {sys_socket, sys_close, sys_shutdown, sys_send, sys_recv, errno}

  -- `Socket::Close`.
  unfoldable pub close : Socket → W → Bool × ℤ × Socket × W
  close s w = let (rc, w') = sys_close s.m_socket w in (is_nonneg rc, errno w', new_socket, w')

  -- `Socket::ShutDown`.
  unfoldable pub shut_down : Socket → ℤ → W → Bool × ℤ × W
  shut_down s code w =
      let (rc, w') = sys_shutdown s.m_socket code w in (not (is_zero rc), errno w', w')

  -- `Socket::OpenHelper`.
  unfoldable pub open_helper : ℤ → ℤ → ℤ → W → Bool × ℤ × Socket × W
  open_helper domain type protocol w =
      let (fd, w') = sys_socket domain type protocol w in
      (is_valid_handle fd, errno w', socket_of_handle fd, w')

  -- `~Socket`.
  unfoldable pub destroy : Socket → W → W
  unfolding close shut_down
  destroy s w = (close s (shut_down s shut_rdwr w).2).3

  -- `TcpSocket::Open`.
  unfoldable pub open_tcp : W → Bool × ℤ × Socket × W
  unfolding open_helper
  open_tcp w = open_helper af_inet sock_stream (pos 0) w

  -- `TcpSocket::Send`.
  unfoldable pub send : Socket → Bytes → W → ℤ × ℤ × W
  send s text w = let (rc, w') = sys_send s.m_socket text w in (rc, errno w', w')

  -- `TcpSocket::Receive`: also the bytes that were written to the buffer.
  unfoldable pub receive : Socket → ℕ → W → (ℤ × Bytes) × ℤ × W
  receive s size w = let (res, w') = sys_recv s.m_socket size w in (res, errno w', w')
