-- ===== src/Server/Valid/Answers.antt =====
-- What one `OnRead` of a ready session comes to (AcceptorSession and ConnectionSession of
-- server_core/tcp_session.cpp), where the server is valid.
use mod_server.Prelude.{ℕ, ◌≤◌, ◌<◌, ◌≡◌, ◌≢◌, refl, ap, ◌∙◌, some, List, [], ◌∷◌, arith}
use mod_server.Prelude.Int.{ℤ, pos}
use mod_server.Prelude.Fault.{ok}
use mod_server.PluginApi.DataChunk.{m_buf_size}
use mod_server.Server.PluginCalls.{PluginCalls, IsCallable}
use mod_server.PluginApi.Handler.{ProtocolHandler, HandlerLaws}
use mod_server.Socket.Net.{Net, NetLaws}
use mod_server.Socket.TcpSocket.{socket_of_handle}
use mod_server.Socket.TcpListener.{accept}
use mod_server.Server.Session.{Kind, connection, acceptor, Session, connection_on_read}
use mod_server.Server.Store.{Server}
use mod_server.Server.Loop.{after_io, on_read, acceptor_on_read}
use mod_server.Server.Valid.{Member, IsValid, Supply}
use mod_server.Server.Valid.Lists.{Member-append, Member-last}
use mod_server.Server.Valid.Keeps.{registered, register-registered}
use mod_server.Server.Valid.Sessions.{connection_on_read-Serves}
use mod_server.Server.Valid.Touch.{
  Supplied, connection_handler, on_read-connection, on_read-acceptor, read-Touched,
  acceptor-listens,
}
use mod_server.Server.Valid.Deletes.{Ended}
use mod_server.Server.Valid.Fate.{Settled, with_io, Served, call-Served, Served-later}

module _ {W H : Type 0} {net : Net W} {ops : ProtocolHandler H} (nl : NetLaws net)
    (hl : HandlerLaws ops) (sup : Supply nl) (calls : PluginCalls H) where
  -- A new connection with the plugin's handler.
  abbrev pub accepted : H → ℤ → Session H
  accepted given sock = record {
    m_sock = socket_of_handle sock;
    m_proto_handler = some given;
    kind = connection;
  }

  -- `accept` was called once on the acceptor's socket, in some world, and gave a descriptor. A session
  -- on it is on the list, under a new pointer, and the acceptor stays as it was.
  pub record Accepted (plugin p : ℕ) (s : Session H) (before final : Server H) : Type 0 where
    pub start : W
    pub fd : ℕ
    pub new : ℕ
    pub given : H
    pub gives : calls.new_protocol_handler plugin ≡ ok (some given)
    pub accepts : (accept net s.m_sock start).0 ≡ pos fd
    pub made : before.next ≤ new
    pub listed : Member new final.m_sessions
    pub is_new : final.heap new ≡ some (accepted given (pos fd))
    pub stays : Member p final.m_sessions
    pub unchanged : final.heap p ≡ some s

  -- What `OnRead` came to, by the class of the session.
  abbrev pub Answered : Kind → ℕ → Session H → Server H → Server H → Type 0
  Answered connection p s before final =
      Served nl hl sup calls (connection_on_read net ops) p s final
  Answered (acceptor plugin) p s before final = Accepted plugin p s before final

  Answered-by :
      (k : Kind) (p : ℕ) (s : Session H) (before final : Server H)
      → (k ≡ connection → Served nl hl sup calls (connection_on_read net ops) p s final)
      → ((plugin : ℕ) → k ≡ acceptor plugin → Accepted plugin p s before final)
      → Answered k p s before final
  Answered-by connection p s before final f g = f refl
  Answered-by (acceptor plugin) p s before final f g = g plugin refl

  -- Pointers that are new later are new now.
  pub Answered-sooner :
      (k : Kind) (p : ℕ) (s : Session H) (earlier before final : Server H)
      → earlier.next ≤ before.next
      → Answered k p s before final
      → Answered k p s earlier final
  Answered-sooner connection p s earlier before final le a = a
  Answered-sooner (acceptor plugin) p s earlier before final le a = record {
    start = a.start;
    fd = a.fd;
    new = a.new;
    given = a.given;
    gives = a.gives;
    accepts = a.accepts;
    made = omega (arith, le, a.made);
    listed = a.listed;
    is_new = a.is_new;
    stays = a.stays;
    unchanged = a.unchanged;
  }

  -- What was true is true later, if nothing changes at this session nor at a new one.
  pub Answered-later :
      (k : Kind) (p : ℕ) (s : Session H) (before mid final : Server H)
      → p < mid.next
      → Settled nl hl sup calls p mid final
      → ((q : ℕ) → before.next ≤ q → Settled nl hl sup calls q mid final)
      → Answered k p s before mid
      → Answered k p s before final
  Answered-later connection p s before mid final old settled new a =
      Served-later nl hl sup calls (connection_on_read net ops) p s mid final old settled a
  Answered-later (acceptor plugin) p s before mid final old settled new a =
      let (mn, en) = (new a.new a.made).0 a.listed in
      let (mp, ep) = settled.0 a.stays in
      record {
        start = a.start;
        fd = a.fd;
        new = a.new;
        given = a.given;
        gives = a.gives;
        accepts = a.accepts;
        made = a.made;
        listed = mn;
        is_new = en ∙ a.is_new;
        stays = mp;
        unchanged = ep ∙ a.unchanged;
      }

  accept-Accepted :
      (plugin p fd : ℕ) (w : W) (srv : Server H) (s : Session H) (fds : List ℕ) (final : Server H)
      → IsValid nl hl w srv
      → Member p srv.m_sessions
      → srv.heap p ≡ some s
      → s.kind ≡ acceptor plugin
      → (c : IsCallable calls plugin) → s.m_sock.m_socket ≡ pos fd
      → sup.Accepts (fd ∷ fds) w
      → (d : Ended nl hl sup calls
          (Supplied nl hl sup calls p w srv)
          p
          w
          srv
          (with_io nl hl sup calls p (on_read net ops calls p w srv)))
      → Settled nl hl sup calls p d.server final
      → Settled nl hl sup calls srv.next d.server final
      → Accepted plugin p s srv final
  unfolding acceptor_on_read after_io accept
  accept-Accepted plugin p fd w srv s fds final v m e k c sock a d (further, _) (further_new, _) =
      let listens = acceptor-listens nl hl sup calls p w srv s plugin v m e k fd sock in
      let (n, is_n', _, _) = sup.accepts fd fds w a listens in
      let got = net.sys_accept s.m_sock.m_socket w in
      let is_n : got.0 ≡ pos n = rw sock is_n' in
      let one = accepted c.handler got.0 in
      let srv' = registered nl hl one n srv in
      let computed : with_io nl hl sup calls p (on_read net ops calls p w srv) ≡ ok (got.1, srv') =
        rw (on_read-acceptor nl hl sup calls p w srv s plugin e k)
          (rw (c.handler_is, c.name_is, register-registered nl hl one n srv is_n) refl) in
      let same : d.server ≡ srv' = cc (d.returns, computed) in
      let old : srv'.heap p ≡ some s = ground (arith, v.fresh p m) in
      let added : srv'.heap srv.next ≡ some one = ground arith in
      let (mp, ep) = further (rw same (Member-append p srv.m_sessions (srv.next ∷ []) m)) in
      let (mn, en) = further_new (rw same (Member-last srv.next srv.m_sessions)) in
      record {
        start = w;
        fd = n;
        new = srv.next;
        given = c.handler;
        gives = c.handler_is;
        accepts = is_n;
        made = omega arith;
        listed = mn;
        is_new =
            en
            ∙ ap (λ (x : Server H). x.heap srv.next) same
            ∙ added
            ∙ ap (λ i. some (accepted c.handler i)) is_n;
        stays = mp;
        unchanged = ep ∙ ap (λ (x : Server H). x.heap p) same ∙ old;
      }

  module _ (handlers : (plugin : ℕ) → (c : IsCallable calls plugin) × hl.IsReady c.handler)
      (never_fills : (fd : ℤ) (w : W) → (net.sys_recv fd m_buf_size w).0.0 ≢ pos m_buf_size) where
    pub read-Answered :
        (p fd : ℕ) (w : W) (srv : Server H) (s : Session H) (fds : List ℕ) (final : Server H)
        → IsValid nl hl w srv
        → Member p srv.m_sessions
        → srv.heap p ≡ some s
        → s.m_sock.m_socket ≡ pos fd
        → sup.Accepts (fd ∷ fds) w
        → (d : Ended nl hl sup calls
            (Supplied nl hl sup calls p w srv)
            p
            w
            srv
            (with_io nl hl sup calls p (on_read net ops calls p w srv)))
        → Settled nl hl sup calls p d.server final
        → Settled nl hl sup calls srv.next d.server final
        → Answered s.kind p s srv final
    read-Answered p fd w srv s fds final v m e sock a d settled settled_new =
        Answered-by s.kind p s srv final
          (λ k.
            let (h, is_h, ready) = connection_handler nl hl sup calls p w srv s v m e k in
            call-Served nl hl sup calls (connection_on_read net ops) p w srv s final _ v m
              (on_read-connection nl hl sup calls p w srv s e k)
              (connection_on_read-Serves nl hl sup s w h is_h ready
                (never_fills s.m_sock.m_socket w))
              (read-Touched nl hl sup calls handlers never_fills p w srv v m fds
                (fd, s, e, sock, a))
              d settled)
          (λ plugin k.
            accept-Accepted plugin p fd w srv s fds final v m e k (handlers plugin).0 sock a d
              settled settled_new)
