-- ===== src/Server/Valid/Service.antt =====
-- One round of the server's loop as each session sees it (server_core/server.cpp).
use mod_server.Prelude.{
  ℕ, ◌≡◌, ◌≢◌, inl, inr, sym, ap, ◌∙◌, true, false, some, List, arith, Bool-cases,
}
use mod_server.Prelude.Int.{ℤ, pos}
use mod_server.Prelude.Fault.{Result, ok}
use mod_server.PluginApi.DataChunk.{m_buf_size}
use mod_server.Server.PluginCalls.{PluginCalls, IsCallable}
use mod_server.PluginApi.Handler.{ProtocolHandler, HandlerLaws}
use mod_server.Socket.Net.{Net, NetLaws}
use mod_server.Server.Session.{Session}
use mod_server.Server.Store.{Server}
use mod_server.Server.Loop.{Selected, read_data, send_data}
use mod_server.Server.Valid.{Member, Distinct, IsValid, Supply}
use mod_server.Server.Valid.Answers.{Answered, Answered-later}
use mod_server.Server.Valid.Collect.{Unready}
use mod_server.Server.Valid.Ends.{Grows-trans, Looped}
use mod_server.Server.Valid.Touch.{Grows}
use mod_server.Server.Valid.Fate.{Settled}
use mod_server.Server.Valid.Reads.{read_data-Answered}
use mod_server.Server.Valid.Sends.{NoAcceptor, send_data-Served}
use mod_server.Server.Valid.Writes.{Written}

module _ {W H : Type 0} {net : Net W} {ops : ProtocolHandler H} (nl : NetLaws net)
    (hl : HandlerLaws ops) (sup : Supply nl) (calls : PluginCalls H) where
  -- A descriptor to write to is that of a session that is not to be read.
  abbrev pub Owned : Selected → Server H → Type 0
  Owned sel srv =
      (k : ℕ)
      → sel.write_set k ≡ true
      → (sel.read_set k ≡ false)
        × ((q : ℕ) × (t : Session H) × Member q srv.m_sessions
            × (srv.heap q ≡ some t)
            × (t.m_sock.m_socket ≡ pos k))

  -- What a round does to a session: it is read, or written, or left as it was.
  abbrev pub Attended : Selected → Server H → Server H → Type 0
  Attended sel srv final =
      (p fd : ℕ) (s : Session H)
      → Member p srv.m_sessions
      → srv.heap p ≡ some s
      → s.m_sock.m_socket ≡ pos fd
      → (sel.read_set fd ≡ true → Answered nl hl sup calls s.kind p s srv final)
        × (sel.write_set fd ≡ true → Written nl hl sup calls p s final)
        × (sel.read_set fd ≡ false
            → sel.write_set fd ≡ false
            → Member p final.m_sessions × (final.heap p ≡ some s))

  module _ (sel : Selected) (srv : Server H) (owned : Owned sel srv) where
    -- A session that was not to be read is there after `ReadData`, just as it was.
    unread :
        (r : Result (W × Server H)) (p fd : ℕ) (s : Session H)
        → Member p srv.m_sessions
        → srv.heap p ≡ some s
        → s.m_sock.m_socket ≡ pos fd
        → sel.read_set fd ≡ false
        → (a : Looped nl hl sup calls (Unready nl hl sel.read_set srv) srv r)
        → Member p a.server.m_sessions × (a.server.heap p ≡ some s)
    unread r p fd s m e sock unset a =
        let left : Unready nl hl sel.read_set srv p = λ t k f sock'.
          let is_t : t ≡ s = cc (e, f) in
          let is_k : k ≡ fd = cc (sock, sock', ap (λ (x : Session H). x.m_sock.m_socket) is_t) in
          rw is_k unset in
        let (m', e') = a.others p left m in (m', e' ∙ e)

    -- A session that is not one of the unread ones is not written to.
    unwritten :
        (r : Result (W × Server H)) (p : ℕ)
        → (a : Looped nl hl sup calls (Unready nl hl sel.read_set srv) srv r)
        → ((q k : ℕ) (t : Session H)
            → Member q srv.m_sessions
            → srv.heap q ≡ some t
            → t.m_sock.m_socket ≡ pos k
            → sel.read_set k ≡ false
            → q ≢ p)
        → Member p a.server.m_sessions
        → Unready nl hl sel.write_set a.server p
    unwritten r p a not_owner m s k e sock = elim (Bool-cases (sel.write_set k)) [
      | inr unset ↦ unset
      | inl is_set ↦
          let (unread_k, (q, t, mq, f, sock_t)) = owned k is_set in
          let (mq', f') = unread r q k t mq f sock_t unread_k a in
          absurd (
            a.valid.apart q p t s mq' m (not_owner q k t mq f sock_t unread_k) f' e
              (sock_t ∙ sym sock))
    ]

    -- `SendData` leaves such a session alone.
    settles :
        (r r' : Result (W × Server H)) (p : ℕ)
        → (a : Looped nl hl sup calls (Unready nl hl sel.read_set srv) srv r)
        → (b : Looped nl hl sup calls (Unready nl hl sel.write_set a.server) a.server r')
        → ((q k : ℕ) (t : Session H)
            → Member q srv.m_sessions
            → srv.heap q ≡ some t
            → t.m_sock.m_socket ≡ pos k
            → sel.read_set k ≡ false
            → q ≢ p)
        → Settled nl hl sup calls p a.server b.server
    settles r r' p a b not_owner = (λ m. b.others p (unwritten r p a not_owner m) m, b.growth)

    module _ (handlers : (plugin : ℕ) → (c : IsCallable calls plugin) × hl.IsReady c.handler)
        (never_fills : (fd : ℤ) (w : W) → (net.sys_recv fd m_buf_size w).0.0 ≢ pos m_buf_size) where
      -- Reading and then writing attends to every session.
      pub read_and_send-Attended :
          (w : W)
          → IsValid nl hl w srv
          → NoAcceptor nl hl sup calls sel.write_set srv
          → ((fds : List ℕ)
              → Distinct fds
              → ((k : ℕ) → Member k fds → sel.read_set k ≡ true)
              → sup.Accepts fds w)
          → (w1 w2 : W) × (srv1 srv2 : Server H) × (read_data net ops calls sel.read_set w srv
              ≡ ok (w1, srv1))
            × (send_data net ops calls sel.write_set w1 srv1 ≡ ok (w2, srv2))
            × IsValid nl hl w2 srv2
            × Grows nl hl sup calls srv srv2
            × Attended sel srv srv2
      read_and_send-Attended w v no_acceptor supplied =
          let (a, answered) =
            read_data-Answered nl hl sup calls handlers never_fills sel.read_set w srv v supplied in
          let (b, served) =
            send_data-Served nl hl sup calls sel.write_set a.world a.server a.valid
              (λ p fd plugin s m e k sock.
                let (m', e') = a.same_acceptors p plugin s m e k in
                no_acceptor p fd plugin s m' e' k sock) in
          (
            a.world,
            b.world,
            a.server,
            b.server,
            a.returns,
            b.returns,
            b.valid,
            Grows-trans nl hl sup calls srv a.server b.server a.growth b.growth,
            λ p fd s m e sock. (
              λ ready.
                  Answered-later nl hl sup calls s.kind p s srv a.server b.server
                    (omega (arith, v.fresh p m, a.growth.0))
                    (settles _ _ p a b (λ q k t mq f sock' unset same.
                      let is_t : t ≡ s = cc (e, f, ap srv.heap same) in
                      let is_k : k ≡ fd =
                        cc (sock, sock', ap (λ (x : Session H). x.m_sock.m_socket) is_t) in
                      absurd (cc (unset, ready, ap sel.read_set is_k))))
                    (λ new made. settles _ _ new a b (λ q k t mq f sock' unset same.
                      absurd (omega (arith, v.fresh q mq, made, same))))
                    (answered p fd s m e sock ready),
              λ ready.
                  let (m', e') = unread _ p fd s m e sock (owned fd ready).0 a in
                  served p fd s m' e' sock ready,
              λ idle silent.
                  let (m', e') = unread _ p fd s m e sock idle a in
                  let left : Unready nl hl sel.write_set a.server p = λ t k f sock'.
                    let is_t : t ≡ s = cc (e', f) in
                    let is_k : k ≡ fd =
                      cc (sock, sock', ap (λ (x : Session H). x.m_sock.m_socket) is_t) in
                    rw is_k silent in
                  let (m2, e2) = b.others p left m' in (m2, e2 ∙ e'),
            ),
          )
