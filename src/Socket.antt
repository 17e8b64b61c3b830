-- ===== src/Socket.antt =====
-- Sockets (socket): the classes over the system's calls.
pub mod Net
pub mod TcpSocket
pub mod TcpListener
