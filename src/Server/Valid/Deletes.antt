-- ===== src/Server/Valid/Deletes.antt =====
-- The end of a session, as it changes the server, where it is valid.
use mod_server.Prelude.{
  ℕ, ◌≡◌, ◌≢◌, inl, inr, sym, false, none, some, List, arith, ◌==◌, if◌then◌else◌, Bool-cases,
  ==_iff,
}
use mod_server.Prelude.Int.{pos}
use mod_server.Prelude.Fault.{Result, ok}
use mod_server.Server.PluginCalls.{PluginCalls}
use mod_server.PluginApi.Handler.{ProtocolHandler, HandlerLaws}
use mod_server.Socket.Net.{Net, NetLaws, Use, used, opened, listening}
use mod_server.Socket.TcpSocket.{destroy, close, shut_down, shut_rdwr}
use mod_server.Server.Session.{Kind, connection, acceptor, Session, destroy_session}
use mod_server.Server.Store.{Server, store}
use mod_server.Server.Loop.{delete_session}
use mod_server.Server.Valid.{Member, Listens, IsGood, IsValid, Supply}
use mod_server.Server.Valid.Lists.{heap_cases, remove-Removed, Removed}
use mod_server.Server.Valid.Touch.{SameAcceptors, Grows, connection_handler}

module _ {W H : Type 0} {net : Net W} {ops : ProtocolHandler H} (nl : NetLaws net)
    (hl : HandlerLaws ops) where
  -- A session is deleted, and its descriptor closed.
  pub delete-IsValid :
      (w w' : W) (srv : Server H) (p : ℕ) (s : Session H) (ys : List ℕ) (fd : ℕ)
      → IsValid nl hl w srv
      → Member p srv.m_sessions
      → srv.heap p ≡ some s
      → s.m_sock.m_socket ≡ pos fd
      → Removed p srv.m_sessions ys
      → ((u : Use) → used u ≢ fd → nl.Has u w → nl.Has u w')
      → IsValid nl hl w' (store p none (record srv { m_sessions = ys }))
  delete-IsValid w w' srv p s ys fd v mp ep is_fd r carry = record {
    fresh = λ q m. v.fresh q (r.was q m);
    distinct = r.distinct;
    alive = λ q m. let (a, f) = v.alive q (r.was q m) in (a, rw (other q m) f);
    good = λ q a m f. still q a (r.was q m) (λ e. r.gone (rw e at m)) (before q a m f);
    apart = λ q q' a b m m' ne f f'.
        v.apart q q' a b (r.was q m) (r.was q' m') ne (before q a m f) (before q' b m' f');
  }
    where
      other : (q : ℕ) → Member q ys → (p == q) ≡ false
      other q m = elim (Bool-cases (p == q)) [
        | inl same ↦ absurd (r.gone (rw (sym ((==_iff p q).0 same)) at m))
        | inr e ↦ e
      ]

      before :
          (q : ℕ) (a : Session H)
          → Member q ys
          → (if p == q then none else srv.heap q) ≡ some a
          → srv.heap q ≡ some a
      before q a m f = rw (other q m) at f

      listens_on : (kind : Kind) (k : ℕ) → k ≢ fd → Listens nl hl kind k w → Listens nl hl kind k w'
      listens_on connection k ne l = tt
      listens_on (acceptor plugin) k ne l = carry (listening k) ne l

      still :
          (q : ℕ) (a : Session H)
          → Member q srv.m_sessions
          → q ≢ p
          → srv.heap q ≡ some a
          → IsGood nl hl w' srv.m_max_fd a
      still q a m ne f =
          let g : IsGood nl hl w srv.m_max_fd a = v.good q a m f in
          let apart : g.fd ≢ fd =
            λ same. v.apart q p a s m mp ne f ep (cc (g.handle_is, is_fd, same)) in
          record {
            fd = g.fd;
            handle_is = g.handle_is;
            small = g.small;
            watched = g.watched;
            is_open = carry (opened g.fd) apart g.is_open;
            listens = listens_on a.kind g.fd apart g.listens;
            handled = g.handled;
          }

module _ {W H : Type 0} {net : Net W} {ops : ProtocolHandler H} (nl : NetLaws net)
    (hl : HandlerLaws ops) (sup : Supply nl) (calls : PluginCalls H) where
  -- Closing a session's socket closes no other descriptor.
  destroy_keeps :
      (s : Session H) (w : W) (fd : ℕ)
      → s.m_sock.m_socket ≡ pos fd
      → (u : Use) → used u ≢ fd
      → nl.Has u w
      → nl.Has u (destroy net s.m_sock w)
  unfolding destroy close shut_down
  destroy_keeps s w fd e u ne o =
      let other : pos (used u) ≢ pos fd = λ f. ne (cc (f)) in
      rw e (nl.close_keeps (pos fd) u _ other (nl.shutdown_keeps (pos fd) shut_rdwr u w other o))

  -- `delete` on a listed connection: the session is gone, and all others stay.
  pub record Ended (Given : List ℕ → Type 0) (p : ℕ) (w : W) (srv : Server H)
      (r : Result (W × Server H)) : Type 0 where
    pub world : W
    pub server : Server H
    pub returns : r ≡ ok (world, server)
    pub valid : IsValid nl hl world server
    pub stays : (q : ℕ) → q ≢ p → Member q srv.m_sessions → Member q server.m_sessions
    pub same_acceptors : SameAcceptors nl hl sup calls srv server
    pub growth : Grows nl hl sup calls srv server
    pub others : (q : ℕ) → q ≢ p → Member q srv.m_sessions → server.heap q ≡ srv.heap q
    pub leaves : (fds : List ℕ) → Given fds → sup.Accepts fds world

  destroy_leaves :
      (s : Session H) (w : W) (fds : List ℕ)
      → sup.Accepts fds w
      → sup.Accepts fds (destroy net s.m_sock w)
  unfolding destroy close shut_down
  destroy_leaves s w fds a =
      sup.close_leaves s.m_sock.m_socket fds _
        (sup.shutdown_leaves s.m_sock.m_socket shut_rdwr fds w a)

  pub delete-Ended :
      (p : ℕ) (w : W) (srv : Server H) (s : Session H)
      → IsValid nl hl w srv
      → Member p srv.m_sessions
      → srv.heap p ≡ some s
      → s.kind ≡ connection
      → Ended (λ fds. sup.Accepts fds w) p w srv (delete_session net ops calls p w srv)
  unfolding delete_session destroy_session
  delete-Ended p w srv s v m e k =
      let (h, is_h, ready) = connection_handler nl hl sup calls p w srv s v m e k in
      let (ys, removed, r) = remove-Removed p srv.m_sessions v.distinct m in
      let g : IsGood nl hl w srv.m_max_fd s = v.good p s m e in
      record {
        world = destroy net s.m_sock w;
        server = store p none (record srv { m_sessions = ys });
        returns = ground (arith, e, removed, is_h);
        valid =
            delete-IsValid nl hl w (destroy net s.m_sock w) srv p s ys g.fd v m e g.handle_is r
              (destroy_keeps s w g.fd g.handle_is);
        stays = r.stays;
        same_acceptors = λ q plugin a mq f is_a. elim (heap_cases srv.heap p q none a f) [
          | inl (here, is_a') ↦ absurd (cc (is_a'))
          | inr (there, f') ↦ (r.was q mq, f')
        ];
        growth = (omega arith, λ q mq. inl (r.was q mq));
        others = λ q ne mq. ground arith;
        leaves = destroy_leaves s w;
      }

  pub delete_session-gone :
      (p : ℕ) (w w' : W) (srv srv' : Server H) (s : Session H)
      → IsValid nl hl w srv
      → Member p srv.m_sessions
      → srv.heap p ≡ some s
      → s.kind ≡ connection
      → delete_session net ops calls p w srv ≡ ok (w', srv')
      → ¬ (Member p srv'.m_sessions)
  unfolding delete_session destroy_session
  delete_session-gone p w w' srv srv' s v m e k deleted =
      let (h, is_h, ready) = connection_handler nl hl sup calls p w srv s v m e k in
      let (ys, removed, r) = remove-Removed p srv.m_sessions v.distinct m in
      let computed : delete_session net ops calls p w srv
          ≡ ok (destroy net s.m_sock w, store p none (record srv { m_sessions = ys })) =
        ground (arith, e, removed, is_h) in
      let same : srv' ≡ store p none (record srv { m_sessions = ys }) = cc (deleted, computed) in
      rw same r.gone
