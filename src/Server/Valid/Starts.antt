-- ===== src/Server/Valid/Starts.antt =====
-- `InitPlugins` (server_core/server.cpp) leaves a valid server.
use mod_server.Prelude.{
  arith, ap, ℕ, zero, suc, ◌<◌, ◌≡◌, ◌≢◌, inl, inr, refl, Bool, true, false, none, some, List, [],
  ◌∷◌, Bytes, length, Bool-cases, ◌-◌,
}
use mod_server.Prelude.Int.{ℤ, pos, negsuc}
use mod_server.Prelude.Fault.{Result, ok}
use mod_server.Base.CommandLine.{CommandLine, for_current_process}
use mod_server.PluginApi.Plugin.{SockType, tcp, unnamed}
use mod_server.Server.PluginCalls.{PluginCalls, IsCallable}
use mod_server.PluginApi.Handler.{ProtocolHandler, HandlerLaws}
use mod_server.Socket.Net.{Net, NetLaws, Use, used, opened, listening}
use mod_server.Socket.TcpSocket.{
  is_zero, Socket, open_tcp, open_helper, close, shut_down, destroy, af_inet, sock_stream,
  shut_rdwr, is_valid_handle,
}
use mod_server.Socket.TcpListener.{TcpListener, listener_of_end_point, bind, listen}
use mod_server.Server.IpEndPoint.{IpEndPoint, ip_size}
use mod_server.Server.IpEndPoint
use mod_server.Server.FdSet.{fd_setsize}
use mod_server.Server.Session.{Session, acceptor}
use mod_server.Server.Store.{Server, new_server}
use mod_server.Server.Startup.{
  max_listen, server_ip, give_up, after_listen, after_bind, after_open, serve, serve_if_valid,
  init_plugin, init_plugins, end_point_of_string_text,
}
use mod_server.Server.Valid.{IsValid}
use mod_server.Server.Valid.Keeps.{Carries, registered, register-registered, registered-IsValid}
use mod_server.Server.Valid.Round.{IsValid-carry}

module _ {W H : Type 0} {net : Net W} {ops : ProtocolHandler H} (nl : NetLaws net)
    (hl : HandlerLaws ops) where
  pub new_server-IsValid : (w : W) → IsValid nl hl w new_server
  unfolding new_server
  new_server-IsValid w = record {
    fresh = λ p m. absurd m;
    distinct = tt;
    alive = λ p m. absurd m;
    good = λ p s m e. absurd m;
    apart = λ p q s t m. absurd m;
  }

  -- A call that leaves a valid server.
  abbrev pub Leaves : Result (W × Server H) → Type 0
  Leaves r = (w : W) × (srv : Server H) × (r ≡ ok (w, srv)) × IsValid nl hl w srv

  -- A socket that is destroyed was not that of `k`.
  destroy_other_keeps :
      (s : Socket) (w : W) (u : Use)
      → pos (used u) ≢ s.m_socket
      → nl.Has u w
      → nl.Has u (destroy net s w)
  unfolding destroy close shut_down
  destroy_other_keeps s w u ne o =
      nl.close_keeps s.m_socket u _ ne (nl.shutdown_keeps s.m_socket shut_rdwr u w ne o)

  bind-keeps : (l : TcpListener) (w : W) (u : Use) → nl.Has u w → nl.Has u (bind net l w).2
  unfolding bind
  bind-keeps l w k o = elim (Bool-cases (IpEndPoint.is_valid net.inet_addr l.m_ep)) [
    | inl good ↦ rw good (nl.bind_keeps l.socket.m_socket _ w k o)
    | inr bad ↦ rw bad o
  ]

  listen-keeps :
      (l : TcpListener) (backlog : ℤ) (w : W) (u : Use)
      → nl.Has u w
      → nl.Has u (listen net l backlog w).2
  unfolding listen
  listen-keeps l backlog w k o = nl.listen_keeps l.socket.m_socket backlog w k o

  is_zero_iff : (i : ℤ) → is_zero i ≡ true → i ≡ pos 0
  is_zero_iff (pos n) e = let zeroes : n ≡ 0 = ground (arith, e) in ap pos zeroes
  is_zero_iff (negsuc n) e = absurd (cc)

  listen_listens :
      (l : TcpListener) (backlog : ℤ) (n : ℕ) (w : W)
      → l.socket.m_socket ≡ pos n
      → (listen net l backlog w).0 ≡ true
      → nl.Has (listening n) (listen net l backlog w).2
  unfolding listen
  listen_listens l backlog n w sock fine =
      rw sock (nl.listen_listens n backlog w (is_zero_iff _ (rw sock at fine)))

  module _ (calls : PluginCalls H) (raw : Bytes) (w0 : W) (srv : Server H)
      (v : IsValid nl hl w0 srv) where
    module _ (plugin : ℕ) (c : IsCallable calls plugin) (l : TcpListener) (n : ℕ)
        (sock : l.socket.m_socket ≡ pos n) (small : n < fd_setsize)
        (closed_before : ¬ (nl.Has (opened n) w0)) where
      -- The listener is given up: its descriptor is closed, which no session has.
      destroyed-Carries : (w : W) → Carries nl hl w0 w → Carries nl hl w0 (destroy net l.socket w)
      destroyed-Carries w carry (opened k) o =
          destroy_other_keeps l.socket w (opened k)
            (λ e. let same : k ≡ n = cc (e, sock) in closed_before (rw same at o))
            (carry (opened k) o)
      destroyed-Carries w carry (listening k) o =
          destroy_other_keeps l.socket w (listening k)
            (λ e.
              let same : k ≡ n = cc (e, sock) in
              closed_before (rw same at (nl.listening_open k w0 o)))
            (carry (listening k) o)

      given_up-Leaves :
          (w : W) → Carries nl hl w0 w → Leaves (give_up net calls raw plugin l.socket w srv)
      given_up-Leaves w carry =
          (_, srv, rw c.name_is refl, IsValid-carry nl hl w0 _ srv v (destroyed-Carries w carry))

      after_listen-Leaves :
          (r : Bool × ℤ × W)
          → Carries nl hl w0 r.2
          → nl.Has (opened n) r.2
          → (r.0 ≡ true → nl.Has (listening n) r.2)
          → Leaves (after_listen net calls raw plugin l r srv)
      after_listen-Leaves (false, err, w) carry is_open listens = given_up-Leaves w carry
      after_listen-Leaves (true, err, w) carry is_open listens =
          let s : Session H = record {
            m_sock = l.socket;
            m_proto_handler = none;
            kind = acceptor plugin;
          } in
          (
            w,
            registered nl hl s n srv,
            rw (register-registered nl hl s n srv sock) refl,
            registered-IsValid nl hl w0 w srv v carry s n sock small is_open closed_before
                (listens refl) tt,
          )

      after_bind-Leaves :
          (r : Bool × ℤ × W)
          → Carries nl hl w0 r.2
          → nl.Has (opened n) r.2
          → Leaves (after_bind net calls raw plugin l r srv)
      after_bind-Leaves (false, err, w) carry is_open = given_up-Leaves w carry
      after_bind-Leaves (true, err, w) carry is_open =
          after_listen-Leaves (listen net l max_listen w)
            (λ k o. listen-keeps l max_listen w k (carry k o))
            (listen-keeps l max_listen w (opened n) is_open)
            (λ ok. listen_listens l max_listen n w sock ok)

    -- Where a socket was not opened, nothing is closed.
    failed_open-Leaves :
        (plugin : ℕ) (c : IsCallable calls plugin) (sock : Socket) (w : W)
        → sock.m_socket ≡ negsuc 0
        → Carries nl hl w0 w
        → Leaves (give_up net calls raw plugin sock w srv)
    failed_open-Leaves plugin c sock w e carry = (
      _,
      srv,
      rw c.name_is refl,
      IsValid-carry nl hl w0 _ srv v
          (λ k o. destroy_other_keeps sock w k (λ f. cc (f, e)) (carry k o)),
    )

    after_open-Leaves :
        (plugin : ℕ) (c : IsCallable calls plugin) (l : TcpListener) (fd err : ℤ) (w : W)
        → ((n : ℕ) → fd ≢ negsuc (suc n))
        → ((n : ℕ) → fd ≡ pos n → (n < fd_setsize) × nl.Has (opened n) w × ¬ (nl.Has (opened n) w0))
        → Carries nl hl w0 w
        → Leaves (
            after_open net calls raw plugin l
              (is_valid_handle fd, err, record { m_socket = fd }, w)
              srv)
    after_open-Leaves plugin c l (pos n) err w fails opens carry =
        let (small, is_open, closed_before) = opens n refl in
        let open_listener : TcpListener = record l { socket = record { m_socket = pos n } } in
        after_bind-Leaves plugin c open_listener n refl small closed_before
          (bind net open_listener w) (λ k o. bind-keeps open_listener w k (carry k o))
          (bind-keeps open_listener w (opened n) is_open)
    after_open-Leaves plugin c l (negsuc zero) err w fails opens carry =
        failed_open-Leaves plugin c (record { m_socket = negsuc 0 }) w refl carry
    after_open-Leaves plugin c l (negsuc (suc n)) err w fails opens carry = absurd (fails n refl)

    serve-Leaves :
        ((n : ℕ) → (net.sys_socket af_inet sock_stream (pos 0) w0).0 ≡ pos n → n < fd_setsize)
        → (t : SockType) (plugin : ℕ) (c : IsCallable calls plugin) (ep : IpEndPoint)
        → Leaves (serve net calls raw t plugin ep w0 srv)
    unfolding open_tcp open_helper
    serve-Leaves small tcp plugin c ep =
        let got = net.sys_socket af_inet sock_stream (pos 0) w0 in
        after_open-Leaves plugin c (listener_of_end_point raw ep) got.0 (net.errno got.1) got.1
          (nl.socket_fails af_inet sock_stream (pos 0) w0)
          (λ n e.
            let (is_open, closed_before) = nl.socket_new af_inet sock_stream (pos 0) w0 n e in
            (small n e, is_open, closed_before))
          (nl.socket_keeps af_inet sock_stream (pos 0) w0)
    serve-Leaves small unnamed plugin c ep = (w0, srv, refl, v)

    serve_if_valid-Leaves :
        ((n : ℕ) → (net.sys_socket af_inet sock_stream (pos 0) w0).0 ≡ pos n → n < fd_setsize)
        → (b : Bool) (plugin : ℕ) (c : IsCallable calls plugin) (ep : IpEndPoint)
        → Leaves (serve_if_valid net calls raw b plugin ep w0 srv)
    serve_if_valid-Leaves small false plugin c ep = (w0, srv, rw c.name_is refl, v)
    serve_if_valid-Leaves small true plugin c ep =
        rw (c.name_is, c.sock_type_is) (serve-Leaves small c.type_of plugin c ep)

  module _ (calls : PluginCalls H) (raw : Bytes) (cl : CommandLine)
      (some_text : 0 < length (server_ip cl)) (short : length (server_ip cl) < ip_size - 1)
      (callable : (plugin : ℕ) → IsCallable calls plugin)
      (small_sockets : (w : W) (n : ℕ)
        → (net.sys_socket af_inet sock_stream (pos 0) w).0 ≡ pos n
        → n < fd_setsize) where
    init_plugin-Leaves :
        (plugin : ℕ) (w : W) (srv : Server H)
        → IsValid nl hl w srv
        → Leaves (init_plugin net calls raw (some cl) plugin w srv)
    unfolding init_plugin for_current_process
    init_plugin-Leaves plugin w srv v =
        let (ep, e) = end_point_of_string_text raw (server_ip cl) some_text short in
        let c = callable plugin in
        let ep' = IpEndPoint.set_port ep c.number in
        let (w', srv', r, v') =
          serve_if_valid-Leaves calls raw w srv v (small_sockets w)
            (IpEndPoint.is_valid net.inet_addr ep') plugin c ep' in
        (w', srv', rw (c.name_is, c.initialize_is, e, c.port_is) r, v')

    -- Where the calls on the plugins return, the switch `serverIp` has a value of 1 to 18 bytes and new
    -- sockets have descriptors below FD_SETSIZE, `InitPlugins` faults nowhere on a valid server and leaves a valid server, whichever of
    -- the system's calls fail.
    pub init_plugins-IsValid :
        (plugins : List ℕ) (w : W) (srv : Server H)
        → IsValid nl hl w srv
        → Leaves (init_plugins net calls raw (some cl) plugins w srv)
    unfolding init_plugins
    init_plugins-IsValid [] w srv v = (w, srv, refl, v)
    init_plugins-IsValid (plugin ∷ plugins) w srv v =
        let (w1, srv1, e1, v1) = init_plugin-Leaves plugin w srv v in
        let (w2, srv2, e2, v2) = init_plugins-IsValid plugins w1 srv1 v1 in (w2, srv2, rw e1 e2, v2)
