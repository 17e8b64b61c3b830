-- ===== src/Server/Startup.antt =====
-- `Server::InitPlugins` (server_core/server.cpp). The calls on the plugins are a parameter; what is
-- logged is left out, but not the calls of `name` for it.
use mod_server.Prelude.{
  ℕ, suc, ◌-◌, ◌<◌, ◌≡◌, refl, Bool, true, false, not, Option, none, some, List, [], ◌∷◌, ◌++◌,
  if◌then◌else◌, arith, Bytes, length, ◌==◌,
}
use mod_server.Prelude.Int.{ℤ, pos}
use mod_server.Prelude.Fault.{Result, ok, fault, failed_assert, ◌>>=◌, Returns, >>=-Returns}
use mod_server.Prelude.Text.{codes}
use mod_server.Base.CommandLine.{CommandLine, for_current_process, switch_value}
use mod_server.PluginApi.Plugin.{SockType, tcp, unnamed}
use mod_server.Server.PluginCalls.{PluginCalls, IsCallable}
use mod_server.Socket.Net.{Net}
use mod_server.Socket.TcpSocket.{Socket, open_tcp, destroy}
use mod_server.Socket.TcpListener.{TcpListener, listener_of_end_point, bind, listen}
use mod_server.Server.IpEndPoint.{
  IpEndPoint, ip_size, c_string, snprintf, end_point_of_string, set_port, is_valid,
}
use mod_server.Server.FdSet.{fd_setsize}
use mod_server.Server.Session.{Session, acceptor}
use mod_server.Server.Store.{Server, raise_max_fd, register_session, new_session}

-- `FD_SETSIZE - 2`.
abbrev pub max_listen : ℤ
max_listen = pos (fd_setsize - 2)

-- The address on the command line.
abbrev pub server_ip : CommandLine → Bytes
server_ip cl = switch_value cl (codes "serverIp")

end_point_of_string_unfit :
    (raw ip : Bytes)
    → ¬ ((0 < length ip) × (length ip < ip_size - 1))
    → end_point_of_string raw ip 0 ≡ fault failed_assert
unfolding end_point_of_string
end_point_of_string_unfit raw ip unfit = ground (arith, unfit)

pub end_point_of_string_text :
    (raw ip : Bytes)
    → 0 < length ip
    → length ip < ip_size - 1
    → Returns (end_point_of_string raw ip 0)
unfolding end_point_of_string
end_point_of_string_text raw ip some_text short =
    (record { m_ip = snprintf raw (c_string ip); m_port = 0 }, ground arith)

module _ {W H : Type 0} (net : Net W) (calls : PluginCalls H) (raw : Bytes) where
  -- The early end of a round: the name is logged and the listener is destroyed.
  abbrev pub give_up : ℕ → Socket → W → Server H → Result (W × Server H)
  give_up plugin sock w srv = do text ← calls.name plugin; ok (destroy net sock w, srv)

  -- The listener is bound and listens, or is destroyed.
  abbrev pub after_listen : ℕ → TcpListener → Bool × ℤ × W → Server H → Result (W × Server H)
  after_listen plugin l (listening, err, w) srv =
      let s : Session H = record {
        m_sock = l.socket;
        m_proto_handler = none;
        kind = acceptor plugin;
      } in
      let registered = register_session srv.next (new_session s srv) in
      if not listening then give_up plugin l.socket w srv else (do srv' ← registered; ok (w, srv'))

  abbrev pub after_bind : ℕ → TcpListener → Bool × ℤ × W → Server H → Result (W × Server H)
  after_bind plugin l (bound, err, w) srv =
      if not bound
      then give_up plugin l.socket w srv
      else after_listen plugin l (listen net l max_listen w) srv

  abbrev pub after_open : ℕ → TcpListener → Bool × ℤ × Socket × W → Server H → Result (W × Server H)
  after_open plugin l (opened, err, sock, w) srv =
      let open_listener : TcpListener = record l { socket = sock } in
      if not opened
      then give_up plugin sock w srv
      else after_bind plugin open_listener (bind net open_listener w) srv

  -- The `switch` on the type of the socket.
  abbrev pub serve : SockType → ℕ → IpEndPoint → W → Server H → Result (W × Server H)
  serve tcp plugin ep w srv = after_open plugin (listener_of_end_point raw ep) (open_tcp net w) srv
  serve unnamed plugin ep w srv = ok (w, srv)

  -- What follows the test of the end point: both branches log the name.
  abbrev pub serve_if_valid : Bool → ℕ → IpEndPoint → W → Server H → Result (W × Server H)
  serve_if_valid false plugin ep w srv = do text ← calls.name plugin; ok (w, srv)
  serve_if_valid true plugin ep w srv = do
    text ← calls.name plugin
    type_of ← calls.sock_type plugin
    serve type_of plugin ep w srv

  -- One round of the loop of `InitPlugins`.
  unfoldable pub init_plugin : Option CommandLine → ℕ → W → Server H → Result (W × Server H)
  init_plugin process plugin w srv = do
    text ← calls.name plugin
    log_fn ← calls.initialize plugin
    cl ← for_current_process process
    ep ← end_point_of_string raw (switch_value cl (codes "serverIp")) 0
    number ← calls.port plugin
    let ep' = set_port ep number
    serve_if_valid (is_valid net.inet_addr ep') plugin ep' w srv

  -- `InitPlugins`.
  unfoldable pub init_plugins : Option CommandLine → List ℕ → W → Server H → Result (W × Server H)
  init_plugins process [] w srv = ok (w, srv)
  init_plugins process (plugin ∷ plugins) w srv = do
    (w', srv') ← init_plugin process plugin w srv
    init_plugins process plugins w' srv'

  register_session-Returns :
      (s : Session H) (srv : Server H) → Returns (register_session srv.next (new_session s srv))
  unfolding register_session
  register_session-Returns s srv = (
    record {
      m_sessions = srv.m_sessions ++ srv.next ∷ [];
      m_max_fd = raise_max_fd s.m_sock.m_socket srv.m_max_fd;
      heap = λ q. if srv.next == q then some s else srv.heap q;
      next = suc srv.next;
    },
    ground arith,
  )

  module _ (plugin : ℕ) (c : IsCallable calls plugin) where
    give_up-Returns : (sock : Socket) (w : W) (srv : Server H) → Returns (give_up plugin sock w srv)
    give_up-Returns sock w srv = ((destroy net sock w, srv), rw c.name_is refl)

    after_listen-Returns :
        (l : TcpListener) (r : Bool × ℤ × W) (srv : Server H)
        → Returns (after_listen plugin l r srv)
    after_listen-Returns l (false, err, w) srv = give_up-Returns l.socket w srv
    after_listen-Returns l (true, err, w) srv =
        >>=-Returns (register_session srv.next (new_session _ srv)) _
          (register_session-Returns _ srv) (λ srv'. (_, refl))

    after_bind-Returns :
        (l : TcpListener) (r : Bool × ℤ × W) (srv : Server H) → Returns (after_bind plugin l r srv)
    after_bind-Returns l (false, err, w) srv = give_up-Returns l.socket w srv
    after_bind-Returns l (true, err, w) srv = after_listen-Returns l (listen net l max_listen w) srv

    after_open-Returns :
        (l : TcpListener) (r : Bool × ℤ × Socket × W) (srv : Server H)
        → Returns (after_open plugin l r srv)
    after_open-Returns l (false, err, sock, w) srv = give_up-Returns sock w srv
    after_open-Returns l (true, err, sock, w) srv = after_bind-Returns _ (bind net _ w) srv

    serve-Returns :
        (t : SockType) (ep : IpEndPoint) (w : W) (srv : Server H)
        → Returns (serve t plugin ep w srv)
    serve-Returns tcp ep w srv =
        after_open-Returns (listener_of_end_point raw ep) (open_tcp net w) srv
    serve-Returns unnamed ep w srv = (_, refl)

    serve_if_valid-Returns :
        (b : Bool) (ep : IpEndPoint) (w : W) (srv : Server H)
        → Returns (serve_if_valid b plugin ep w srv)
    serve_if_valid-Returns false ep w srv = ((w, srv), rw c.name_is refl)
    serve_if_valid-Returns true ep w srv =
        rw (c.name_is, c.sock_type_is) (serve-Returns c.type_of ep w srv)

  module _ (cl : CommandLine) where
    init_plugin-Returns :
        (plugin : ℕ) (w : W) (srv : Server H)
        → IsCallable calls plugin
        → 0 < length (server_ip cl)
        → length (server_ip cl) < ip_size - 1
        → Returns (init_plugin (some cl) plugin w srv)
    unfolding init_plugin for_current_process
    init_plugin-Returns plugin w srv c some_text short =
        rw (c.name_is, c.initialize_is)
          (>>=-Returns (end_point_of_string raw (server_ip cl) 0) _
            (end_point_of_string_text raw (server_ip cl) some_text short)
            (λ ep. rw c.port_is (serve_if_valid-Returns plugin c _ _ w srv)))

    -- Where the calls on the plugins return and the switch `serverIp` has a value of 1 to 18 bytes,
    -- `InitPlugins` returns, whichever of the system's calls fail.
    pub init_plugins-Returns :
        ((plugin : ℕ) → IsCallable calls plugin)
        → (plugins : List ℕ) (w : W) (srv : Server H) → 0 < length (server_ip cl)
        → length (server_ip cl) < ip_size - 1
        → Returns (init_plugins (some cl) plugins w srv)
    unfolding init_plugins
    init_plugins-Returns callable [] w srv some_text short = (_, refl)
    init_plugins-Returns callable (plugin ∷ plugins) w srv some_text short =
        >>=-Returns (init_plugin (some cl) plugin w srv) _
          (init_plugin-Returns plugin w srv (callable plugin) some_text short)
          (λ x. init_plugins-Returns callable plugins x.0 x.1 some_text short)

    -- Where there is a plugin and the calls on it return, a switch `serverIp` that is missing, empty or of
    -- 19 bytes or more fails an assertion.
    pub init_plugins-assert :
        (plugin : ℕ) (plugins : List ℕ) (w : W) (srv : Server H)
        → IsCallable calls plugin
        → ¬ ((0 < length (server_ip cl)) × (length (server_ip cl) < ip_size - 1))
        → init_plugins (some cl) (plugin ∷ plugins) w srv ≡ fault failed_assert
    unfolding init_plugins init_plugin for_current_process
    init_plugins-assert plugin plugins w srv c unfit =
        rw (c.name_is, c.initialize_is, end_point_of_string_unfit raw (server_ip cl) unfit) refl
