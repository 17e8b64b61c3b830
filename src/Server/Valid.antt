-- ===== src/Server/Valid.antt =====
-- What holds of the server between two calls: the sessions it lists are alive, distinct, on open
-- descriptors of their own that `select` watches, and a connection has a ready handler.
pub mod Lists
pub mod Keeps
pub mod Sessions
pub mod Touch
pub mod Deletes
pub mod Ends
pub mod Fate
pub mod Answers
pub mod Collect
pub mod Writes
pub mod Sends
pub mod Reads
pub mod Round
pub mod Choice
pub mod Service
pub mod Attends
pub mod Safety
pub mod Starts
pub mod Watched
pub mod Faults
use mod_server.Prelude.{ℕ, ◌<◌, ◌≡◌, ◌≢◌, ◌⊎◌, Option, none, some, List, [], ◌∷◌, Bytes}
use mod_server.Prelude.Int.{ℤ, pos}
use mod_server.PluginApi.Handler.{ProtocolHandler, HandlerLaws}
use mod_server.Socket.Net.{Net, NetLaws, opened, listening}
use mod_server.Server.FdSet.{fd_setsize}
use mod_server.Server.Session.{Kind, connection, acceptor, Session}
use mod_server.Server.Store.{Server}

abbrev pub Member : ℕ → List ℕ → Type 0
Member p [] = ⊥
Member p (q ∷ qs) = (p ≡ q) ⊎ Member p qs

abbrev pub Distinct : List ℕ → Type 0
Distinct [] = Unit
Distinct (p ∷ ps) = (¬ (Member p ps)) × Distinct ps

-- What the system can still accept: one connection on each of the listed descriptors whose socket listens
-- when its turn comes, in their order, on a descriptor that `fd_set` can hold, whatever the server sends,
-- receives and closes in between. It says nothing of a descriptor whose socket does not listen.
pub record Supply {W : Type 0} {net : Net W} (nl : NetLaws net) : Type 1 where
  pub Accepts : List ℕ → W → Type 0
  pub accepts :
      (fd : ℕ) (fds : List ℕ) (w : W)
      → Accepts (fd ∷ fds) w
      → nl.Has (listening fd) w
      → (n : ℕ) × ((net.sys_accept (pos fd) w).0 ≡ pos n)
        × (n < fd_setsize)
        × Accepts fds (net.sys_accept (pos fd) w).1
  pub skips : (fd : ℕ) (fds : List ℕ) (w : W) → Accepts (fd ∷ fds) w → Accepts fds w
  pub send_leaves :
      (fd : ℤ) (text : Bytes) (fds : List ℕ) (w : W)
      → Accepts fds w
      → Accepts fds (net.sys_send fd text w).1
  pub recv_leaves :
      (fd : ℤ) (size : ℕ) (fds : List ℕ) (w : W)
      → Accepts fds w
      → Accepts fds (net.sys_recv fd size w).1
  pub shutdown_leaves :
      (fd how : ℤ) (fds : List ℕ) (w : W)
      → Accepts fds w
      → Accepts fds (net.sys_shutdown fd how w).1
  pub close_leaves :
      (fd : ℤ) (fds : List ℕ) (w : W) → Accepts fds w → Accepts fds (net.sys_close fd w).1

module _ {W H : Type 0} {net : Net W} {ops : ProtocolHandler H} (nl : NetLaws net)
    (hl : HandlerLaws ops) where
  -- A connection has a ready handler; an acceptor needs none.
  abbrev pub HasHandler : Kind → Option H → Type 0
  HasHandler (acceptor plugin) h = Unit
  HasHandler connection none = ⊥
  HasHandler connection (some h) = hl.IsReady h

  -- The socket of an acceptor listens.
  abbrev pub Listens : Kind → ℕ → W → Type 0
  Listens (acceptor plugin) fd w = nl.Has (listening fd) w
  Listens connection fd w = Unit

  pub record IsGood (w : W) (max_fd : ℕ) (s : Session H) : Type 0 where
    pub fd : ℕ
    pub handle_is : s.m_sock.m_socket ≡ pos fd
    pub small : fd < fd_setsize
    pub watched : fd < max_fd
    pub is_open : nl.Has (opened fd) w
    pub listens : Listens s.kind fd w
    pub handled : HasHandler s.kind s.m_proto_handler

  pub record IsValid (w : W) (srv : Server H) : Type 0 where
    pub fresh : (p : ℕ) → Member p srv.m_sessions → p < srv.next
    pub distinct : Distinct srv.m_sessions
    pub alive : (p : ℕ) → Member p srv.m_sessions → (s : Session H) × (srv.heap p ≡ some s)
    pub good :
        (p : ℕ) (s : Session H)
        → Member p srv.m_sessions
        → srv.heap p ≡ some s
        → IsGood w srv.m_max_fd s
    pub apart :
        (p q : ℕ) (s t : Session H)
        → Member p srv.m_sessions
        → Member q srv.m_sessions
        → p ≢ q
        → srv.heap p ≡ some s
        → srv.heap q ≡ some t
        → s.m_sock.m_socket ≢ t.m_sock.m_socket
