-- ===== src/Server/Valid/Touch.antt =====
-- One read of a session and the end of one, as they change the server, where it is valid.
use mod_server.Prelude.{
  ℕ, ◌≤◌, ◌≡◌, ◌≢◌, ◌⊎◌, inl, inr, refl, sym, ap, ◌∙◌, false, Option, none, some, List, [], ◌∷◌,
  arith,
}
use mathlib.Core.Path.{subst}
use mod_server.Prelude.Int.{ℤ, pos}
use mod_server.Prelude.Fault.{Result, ok, ◌>>=◌}
use mod_server.PluginApi.DataChunk.{m_buf_size}
use mod_server.Server.PluginCalls.{PluginCalls, IsCallable}
use mod_server.PluginApi.Handler.{ProtocolHandler, HandlerLaws}
use mod_server.Socket.Net.{Net, NetLaws, listening}
use mod_server.Socket.TcpSocket.{socket_of_handle}
use mod_server.Socket.TcpListener.{accept}
use mod_server.Server.Session.{Kind, connection, acceptor, Session, is_pos, connection_on_read}
use mod_server.Server.Store.{Server, store}
use mod_server.Server.Loop.{acceptor_on_read, on_read}
use mod_server.Server.Valid.{Member, HasHandler, Listens, IsGood, IsValid, Supply}
use mod_server.Server.Valid.Lists.{Member-append, Member-concat, heap_cases}
use mod_server.Server.Valid.Keeps.{
  store-IsValid, registered, register-registered, registered-IsValid, registered_cases,
}
use mod_server.Server.Valid.Sessions.{Serves, connection_on_read-Serves}

module _ {W H : Type 0} {net : Net W} {ops : ProtocolHandler H} (nl : NetLaws net)
    (hl : HandlerLaws ops) (sup : Supply nl) (calls : PluginCalls H) where
  -- Every acceptor of the second server was an acceptor of the first, on the same socket.
  abbrev pub SameAcceptors : Server H → Server H → Type 0
  SameAcceptors srv srv' =
      (p : ℕ) (plugin : ℕ) (s : Session H)
      → Member p srv'.m_sessions
      → srv'.heap p ≡ some s
      → s.kind ≡ acceptor plugin
      → Member p srv.m_sessions × (srv.heap p ≡ some s)

  -- Pointers are never given twice, and a session that joins the list has a new one.
  abbrev pub Grows : Server H → Server H → Type 0
  Grows srv srv' =
      (srv.next ≤ srv'.next)
      × ((q : ℕ) → Member q srv'.m_sessions → Member q srv.m_sessions ⊎ (srv.next ≤ q))

  -- The socket of a listed acceptor listens.
  pub acceptor-listens :
      (p : ℕ) (w : W) (srv : Server H) (s : Session H) (plugin : ℕ)
      → IsValid nl hl w srv
      → Member p srv.m_sessions
      → srv.heap p ≡ some s
      → s.kind ≡ acceptor plugin
      → (fd : ℕ) → s.m_sock.m_socket ≡ pos fd
      → nl.Has (listening fd) w
  acceptor-listens p w srv s plugin v m e k fd sock =
      let g : IsGood nl hl w srv.m_max_fd s = v.good p s m e in
      let same : g.fd ≡ fd = cc (g.handle_is, sock) in
      rw same at (subst (λ (kind : Kind). Listens nl hl kind g.fd w) k g.listens)

  -- The system can accept on the descriptor of `p` if its socket listens, and then on the others.
  abbrev pub Supplied : ℕ → W → Server H → List ℕ → Type 0
  Supplied p w srv fds =
      (fd : ℕ) × (s : Session H) × (srv.heap p ≡ some s)
      × (s.m_sock.m_socket ≡ pos fd)
      × sup.Accepts (fd ∷ fds) w

  -- What a read or a write of the session `p` gives.
  pub record Touched (p : ℕ) (w : W) (srv : Server H) (r : Result (ℤ × ℤ × W × Server H))
      : Type 0 where
    pub rc : ℤ
    pub err : ℤ
    pub world : W
    pub server : Server H
    pub returns : r ≡ ok (rc, err, world, server)
    pub valid : IsValid nl hl world server
    pub stays : (q : ℕ) → Member q srv.m_sessions → Member q server.m_sessions
    pub same_acceptors : SameAcceptors srv server
    pub growth : Grows srv server
    -- another session of before is not changed
    pub others : (q : ℕ) → q ≢ p → Member q srv.m_sessions → server.heap q ≡ srv.heap q
    pub leaves : (fds : List ℕ) → Supplied p w srv fds → sup.Accepts fds world
    -- only a connection can be at its end
    pub ends :
        is_pos rc ≡ false → (s : Session H) × (server.heap p ≡ some s) × (s.kind ≡ connection)

  -- A connection that was served is written back.
  pub served-Touched :
      (p : ℕ) (w : W) (srv : Server H) (s : Session H) (r : Result (ℤ × ℤ × Session H × W))
      → IsValid nl hl w srv
      → Member p srv.m_sessions
      → srv.heap p ≡ some s
      → s.kind ≡ connection
      → Serves nl hl sup s w r
      → Touched p w srv (do (rc, err, s', w') ← r; ok (rc, err, w', store p (some s') srv))
  served-Touched p w srv s r v m e k d =
      let t : Session H = record s { m_proto_handler = some d.handler } in
      record {
        rc = d.rc;
        err = d.err;
        world = d.world;
        server = store p (some t) srv;
        returns = rw d.returns;
        valid = store-IsValid nl hl w d.world srv v d.carries p s t m e refl refl (rw k d.ready);
        stays = λ q mq. mq;
        same_acceptors = λ q plugin a mq f is_a. elim (heap_cases srv.heap p q (some t) a f) [
          | inl (here, is_t) ↦ absurd (cc (k, is_a))
          | inr (there, f') ↦ (mq, f')
        ];
        growth = (omega arith, λ q mq. inl mq);
        others = λ q ne mq. ground arith;
        leaves = λ fds (fd, _, _, _, a). d.leaves fds (sup.skips fd fds w a);
        ends = λ done. (t, ground arith, k);
      }

  -- A listed connection has a ready handler.
  pub connection_handler :
      (p : ℕ) (w : W) (srv : Server H) (s : Session H)
      → IsValid nl hl w srv
      → Member p srv.m_sessions
      → srv.heap p ≡ some s
      → s.kind ≡ connection
      → (h : H) × (s.m_proto_handler ≡ some h) × hl.IsReady h
  connection_handler p w srv s v m e k =
      let g : IsGood nl hl w srv.m_max_fd s = v.good p s m e in
      go s.kind s.m_proto_handler k g.handled
    where
      go :
          (kind : Kind) (h? : Option H)
          → kind ≡ connection
          → HasHandler nl hl kind h?
          → (h : H) × (h? ≡ some h) × hl.IsReady h
      go connection none k' r = absurd r
      go connection (some h) k' r = (h, refl, r)
      go (acceptor plugin) h? k' r = absurd (cc)

  pub kind_cases : (k : Kind) → (k ≡ connection) ⊎ ((plugin : ℕ) × (k ≡ acceptor plugin))
  kind_cases connection = inl refl
  kind_cases (acceptor plugin) = inr (plugin, refl)

  pub on_read-connection :
      (p : ℕ) (w : W) (srv : Server H) (s : Session H)
      → srv.heap p ≡ some s
      → s.kind ≡ connection
      → on_read net ops calls p w srv ≡ (do
        (rc, err, s', w') ← connection_on_read net ops s w
        ok (rc, err, w', store p (some s') srv))
  unfolding on_read
  on_read-connection p w srv s e k = ground arith

  pub on_read-acceptor :
      (p : ℕ) (w : W) (srv : Server H) (s : Session H) (plugin : ℕ)
      → srv.heap p ≡ some s
      → s.kind ≡ acceptor plugin
      → on_read net ops calls p w srv ≡ acceptor_on_read net ops calls plugin s w srv
  unfolding on_read
  on_read-acceptor p w srv s plugin e k = ground arith

  module _ (handlers : (plugin : ℕ) → (c : IsCallable calls plugin) × hl.IsReady c.handler) where
    -- A connection that is accepted is registered, on a watched descriptor of its own.
    pub accepted-Touched :
        (p : ℕ) (w : W) (srv : Server H) (s : Session H) (plugin : ℕ)
        → IsValid nl hl w srv
        → Member p srv.m_sessions
        → srv.heap p ≡ some s
        → s.kind ≡ acceptor plugin
        → (fds : List ℕ) → Supplied p w srv fds
        → Touched p w srv (acceptor_on_read net ops calls plugin s w srv)
    unfolding acceptor_on_read accept
    accepted-Touched p w srv s plugin v m at_p k fds (fd, t, at_t, is_fd, supplied) =
        let got = net.sys_accept s.m_sock.m_socket w in
        let a : Session H = record {
          m_sock = socket_of_handle got.0;
          m_proto_handler = some (handlers plugin).0.handler;
          kind = connection;
        } in
        let same : t ≡ s = cc (at_p, at_t) in
        let sock : s.m_sock.m_socket ≡ pos fd =
          ap (λ (x : Session H). x.m_sock.m_socket) (sym same) ∙ is_fd in
        let listens_at = acceptor-listens p w srv s plugin v m at_p k in
        let listens = listens_at fd sock in
        let (n, is_n', small, left) = sup.accepts fd fds w supplied listens in
        let is_n : got.0 ≡ pos n = rw sock is_n' in
        let (c, ready) = handlers plugin in
        let carry = nl.accept_keeps s.m_sock.m_socket w in
        let (is_open, closed_before) = nl.accept_new s.m_sock.m_socket w n is_n in
        record {
          rc = pos 1;
          err = net.errno got.1;
          world = got.1;
          server = registered nl hl a n srv;
          returns = rw (c.handler_is, c.name_is, register-registered nl hl a n srv is_n);
          valid =
              registered-IsValid nl hl w got.1 srv v carry a n is_n small is_open closed_before tt
                ready;
          stays = λ q mq. Member-append q srv.m_sessions (srv.next ∷ []) mq;
          same_acceptors = λ q plugin' b mq f is_a.
              elim (registered_cases nl hl w got.1 srv v carry a n q b mq f) [
                | inl old ↦ old
                | inr (here, is_b) ↦ absurd (cc (ap (λ (x : Session H). x.kind) is_b, is_a))
              ];
          growth = (
            omega arith,
            λ q mq. elim (Member-concat q srv.next srv.m_sessions mq) [
              | inl old ↦ inl old
              | inr new ↦ inr (omega arith)
            ],
          );
          others = λ q ne mq. ground (arith, v.fresh q mq);
          leaves = λ fds' (fd', t', at_t', is_fd', supplied').
              let same' : t' ≡ s = cc (at_p, at_t') in
              let sock' : s.m_sock.m_socket ≡ pos fd' =
                ap (λ (x : Session H). x.m_sock.m_socket) (sym same') ∙ is_fd' in
              rw sock' (sup.accepts fd' fds' w supplied' (listens_at fd' sock')).3;
          ends = λ done. absurd (cc);
        }

    pub read-Touched :
        (never_fills : (fd : ℤ) (w : W) → (net.sys_recv fd m_buf_size w).0.0 ≢ pos m_buf_size)
        (p : ℕ) (w : W) (srv : Server H)
        → IsValid nl hl w srv
        → Member p srv.m_sessions
        → (fds : List ℕ) → Supplied p w srv fds
        → Touched p w srv (on_read net ops calls p w srv)
    read-Touched never_fills p w srv v m fds given =
        let (s, e) = v.alive p m in
        elim (kind_cases s.kind) [
          | inl k ↦
              let (h, is_h, ready) = connection_handler p w srv s v m e k in
              rw (on_read-connection p w srv s e k) (
                served-Touched p w srv s _ v m e k (
                  connection_on_read-Serves nl hl sup s w h is_h ready
                    (never_fills s.m_sock.m_socket w)))
          | inr (plugin, k) ↦
              rw (on_read-acceptor p w srv s plugin e k)
                (accepted-Touched p w srv s plugin v m e k fds given)
        ]
