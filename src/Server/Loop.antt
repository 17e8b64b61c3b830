-- ===== src/Server/Loop.antt =====
-- The server's loop (server_core/server.cpp) and `AcceptorSession::OnRead` (tcp_session.cpp). What is
-- logged is left out.
use mod_server.Prelude.{ℕ, zero, suc, Bool, none, some, List, [], ◌∷◌, if◌then◌else◌}
use mod_server.Prelude.Int.{ℤ, pos, negsuc}
use mod_server.Prelude.Fault.{Result, ok, ◌>>=◌}
use mod_server.Server.PluginCalls.{PluginCalls}
use mod_server.PluginApi.Handler.{ProtocolHandler}
use mod_server.Socket.Net.{Net}
use mod_server.Socket.TcpSocket.{handle, socket_of_handle}
use mod_server.Socket.TcpListener.{accept}
use mod_server.Server.FdSet.{FdSet, fd_zero, fd_set, fd_isset}
use mod_server.Server.Session.{
  Kind, connection, acceptor, Session, is_pos, session_has_data, can_read, on_write,
  connection_on_read, destroy_session,
}
use mod_server.Server.Store.{Server, load, store, register_session, new_session, remove_from_vector}

-- The sets after `select`, with its result.
pub record Selected : Type 0 where
  pub res : ℤ
  pub read_set : FdSet
  pub write_set : FdSet
  pub error_set : FdSet

-- `select`, over five minutes.
abbrev pub Select : Type 0 → Type 0
Select W = ℕ → FdSet → FdSet → FdSet → W → Selected × W

-- Whether `Run` goes on.
pub data Outcome (W H : Type 0) : Type 0 where
  again : W → Server H → Outcome W H
  stop : W → Server H → Outcome W H

module _ {H : Type 0} where
  -- `for (session : m_sessions) if (test) FD_SET(session->socket()->handle(), set);`
  unfoldable pub fill : (Session H → Result Bool) → List ℕ → Server H → FdSet → Result FdSet
  fill test [] srv set = ok set
  fill test (p ∷ ps) srv set = do
    s ← load p srv
    wanted ← test s
    set' ← (if wanted then fd_set (handle s.m_sock) set else ok set)
    fill test ps srv set'

  -- The copy of the sessions whose descriptor is in the set.
  unfoldable pub collect : FdSet → List ℕ → Server H → Result (List ℕ)
  collect set [] srv = ok []
  collect set (p ∷ ps) srv = do
    s ← load p srv
    ready ← fd_isset (handle s.m_sock) set
    rest ← collect set ps srv
    ok (if ready then p ∷ rest else rest)

module _ {W H : Type 0} (net : Net W) (ops : ProtocolHandler H) (calls : PluginCalls H) where
  -- `FillReadyRead`.
  unfoldable pub fill_ready_read : Server H → FdSet → Result FdSet
  fill_ready_read srv set = fill (can_read net ops) srv.m_sessions srv set

  -- `FillReadyWrite`.
  unfoldable pub fill_ready_write : Server H → FdSet → Result FdSet
  fill_ready_write srv set = fill (session_has_data net ops) srv.m_sessions srv set

  -- `FillError`.
  unfoldable pub fill_error : FdSet → FdSet
  fill_error set = set

  -- `CloseOutdatedConnections`.
  unfoldable pub close_outdated_connections : Server H → Server H
  close_outdated_connections srv = srv

  -- `AcceptorSession::OnRead`: whatever `accept` gives is registered, and the result is 1.
  unfoldable pub acceptor_on_read : ℕ → Session H → W → Server H → Result (ℤ × ℤ × W × Server H)
  acceptor_on_read plugin s w srv = do
    let (sock, err, w') = accept net s.m_sock w
    given ← calls.new_protocol_handler plugin
    let accepted : Session H = record {
      m_sock = socket_of_handle sock;
      m_proto_handler = given;
      kind = connection;
    }
    text ← calls.name plugin
    srv' ← register_session srv.next (new_session accepted srv)
    ok (pos 1, err, w', srv')

  -- `OnRead` of both classes, on the session itself.
  unfoldable pub read_session : Kind → ℕ → Session H → W → Server H → Result (ℤ × ℤ × W × Server H)
  read_session (acceptor plugin) p s w srv = acceptor_on_read plugin s w srv
  read_session connection p s w srv = do
    (rc, err, s', w') ← connection_on_read net ops s w
    ok (rc, err, w', store p (some s') srv)

  -- `session->OnRead(&err)`.
  unfoldable pub on_read : ℕ → W → Server H → Result (ℤ × ℤ × W × Server H)
  unfolding read_session
  on_read p w srv = do s ← load p srv; read_session s.kind p s w srv

  -- `session->OnWrite(&err)`.
  unfoldable pub on_session_write : ℕ → W → Server H → Result (ℤ × ℤ × W × Server H)
  on_session_write p w srv = do
    s ← load p srv
    (rc, err, s', w') ← on_write net ops s w
    ok (rc, err, w', store p (some s') srv)

  -- `RemoveFromVector(m_sessions, session); delete session;`
  unfoldable pub delete_session : ℕ → W → Server H → Result (W × Server H)
  delete_session p w srv = do
    s ← load p srv
    rest ← remove_from_vector p srv.m_sessions
    w' ← destroy_session net ops s w
    ok (w', store p none (record srv { m_sessions = rest }))

  -- What follows a read or a write: below 1 the session is deleted.
  unfoldable pub after_io : ℕ → ℤ → W → Server H → Result (W × Server H)
  after_io p rc w srv = if is_pos rc then ok (w, srv) else delete_session p w srv

  unfoldable pub read_loop : List ℕ → W → Server H → Result (W × Server H)
  read_loop [] w srv = ok (w, srv)
  read_loop (p ∷ ps) w srv = do
    (rc, err, w1, srv1) ← on_read p w srv
    (w2, srv2) ← after_io p rc w1 srv1
    read_loop ps w2 srv2

  -- `ReadData`.
  unfoldable pub read_data : FdSet → W → Server H → Result (W × Server H)
  read_data set w srv = do ready ← collect set srv.m_sessions srv; read_loop ready w srv

  unfoldable pub send_loop : List ℕ → W → Server H → Result (W × Server H)
  send_loop [] w srv = ok (w, srv)
  send_loop (p ∷ ps) w srv = do
    (rc, err, w1, srv1) ← on_session_write p w srv
    (w2, srv2) ← after_io p rc w1 srv1
    send_loop ps w2 srv2

  -- `SendData`.
  unfoldable pub send_data : FdSet → W → Server H → Result (W × Server H)
  send_data set w srv = do ready ← collect set srv.m_sessions srv; send_loop ready w srv

  error_loop : List ℕ → Server H → Result (Server H)
  error_loop [] srv = ok srv
  error_loop (p ∷ ps) srv = do
    s ← load p srv
    rest ← remove_from_vector p srv.m_sessions
    error_loop ps (record srv { m_sessions = rest })

  -- `ErrorSessions`: `OnError` of both classes does nothing, and nothing is deleted.
  unfoldable pub error_sessions : FdSet → Server H → Result (Server H)
  unfolding error_loop
  error_sessions set srv = do ready ← collect set srv.m_sessions srv; error_loop ready srv

  -- The `switch` on the result of `select` and what follows it.
  unfoldable pub after_select : Selected → W → Server H → Result (Outcome W H)
  after_select sel w srv = elim sel.res [
    | negsuc n ↦ elim n [
      | zero ↦ ok (stop w srv)
      | suc k ↦ do
        (w1, srv1) ← read_data sel.read_set w srv
        (w2, srv2) ← send_data sel.write_set w1 srv1
        ok (again w2 srv2)
    ]
    | pos n ↦ do
      (w1, srv1) ← read_data sel.read_set w srv
      (w2, srv2) ← send_data sel.write_set w1 srv1
      ok (again w2 srv2)
  ]

  -- One round of the loop of `Run`. It is the write set that `FillError` is given.
  unfoldable pub round : Select W → W → Server H → Result (Outcome W H)
  round select w srv = do
    read_set ← fill_ready_read srv fd_zero
    write_set ← fill_ready_write srv fd_zero
    let (sel, w') = select srv.m_max_fd read_set (fill_error write_set) fd_zero w
    after_select sel w' (close_outdated_connections srv)

  -- The first rounds of `while (true)`, as many as are given, or up to the `return`.
  unfoldable pub run_rounds : ℕ → Select W → W → Server H → Result (Outcome W H)
  run_rounds zero select w srv = ok (again w srv)
  run_rounds (suc n) select w srv = do
    o ← round select w srv
    elim o [ again w' srv' ↦ run_rounds n select w' srv' | stop w' srv' ↦ ok (stop w' srv') ]
