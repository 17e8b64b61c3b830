-- ===== src/Server/Valid/Sends.antt =====
-- `SendData`, where the server is valid.
use mod_server.Prelude.{ℕ, ◌≡◌, inl, inr, true, false, some}
use mod_server.Prelude.Int.{pos}
use mod_server.Server.PluginCalls.{PluginCalls}
use mod_server.PluginApi.Handler.{ProtocolHandler, HandlerLaws}
use mod_server.Socket.Net.{Net, NetLaws}
use mod_server.Server.FdSet.{FdSet}
use mod_server.Server.Session.{acceptor, Session}
use mod_server.Server.Store.{Server}
use mod_server.Server.Loop.{collect, send_data}
use mod_server.Server.Valid.{Member, IsGood, IsValid, Supply}
use mod_server.Server.Valid.Touch.{kind_cases}
use mod_server.Server.Valid.Ends.{Looped}
use mod_server.Server.Valid.Collect.{Collected, collect-Collected, Unready, Unready-Collected}
use mod_server.Server.Valid.Writes.{IsConnection, Written, send_loop-Looped}

module _ {W H : Type 0} {net : Net W} {ops : ProtocolHandler H} (nl : NetLaws net)
    (hl : HandlerLaws ops) (sup : Supply nl) (calls : PluginCalls H) where
  -- No acceptor's descriptor is in the set.
  abbrev pub NoAcceptor : FdSet → Server H → Type 0
  NoAcceptor set srv =
      (p fd plugin : ℕ) (s : Session H)
      → Member p srv.m_sessions
      → srv.heap p ≡ some s
      → s.kind ≡ acceptor plugin
      → s.m_sock.m_socket ≡ pos fd
      → set fd ≡ false

  Collected-IsConnection :
      (set : FdSet) (w : W) (srv : Server H)
      → IsValid nl hl w srv
      → NoAcceptor set srv
      → (c : Collected nl hl set srv.m_sessions srv (collect set srv.m_sessions srv)) → (p : ℕ)
      → Member p c.ready
      → IsConnection nl hl sup calls srv p
  Collected-IsConnection set w srv v no_acceptor c p mp =
      let m = c.among p mp in
      let (s, e) = v.alive p m in
      let g : IsGood nl hl w srv.m_max_fd s = v.good p s m e in
      elim (kind_cases nl hl sup calls s.kind) [
        | inl k ↦ (m, (s, e, k))
        | inr (plugin, k) ↦
            absurd (
              cc
                (c.in_set p g.fd s mp e g.handle_is, no_acceptor p g.fd plugin s m e k g.handle_is))
      ]

  -- Where the server is valid and no acceptor's descriptor is in the set, `SendData` faults nowhere and
  -- calls `OnWrite` on every session whose descriptor is in the set, as the session was before. Where
  -- the call gave a positive result the session is on the list afterwards as the call left it, and where
  -- not it is on the list no more. A session whose descriptor is not in the set stays on the list, just
  -- as it was, and the server stays valid.
  pub send_data-Served :
      (set : FdSet) (w : W) (srv : Server H)
      → IsValid nl hl w srv
      → NoAcceptor set srv
      → (l : Looped nl hl sup calls (Unready nl hl set srv) srv (send_data net ops calls set w srv))
        × ((p fd : ℕ) (s : Session H)
            → Member p srv.m_sessions
            → srv.heap p ≡ some s
            → s.m_sock.m_socket ≡ pos fd
            → set fd ≡ true
            → Written nl hl sup calls p s l.server)
  unfolding send_data
  send_data-Served set w srv v no_acceptor =
      let c = collect-Collected nl hl set w srv v srv.m_sessions v.distinct (λ p m. m) in
      let (loop, served) =
        send_loop-Looped nl hl sup calls c.ready w srv v c.distinct
          (Collected-IsConnection set w srv v no_acceptor c) in
      (
        record {
          world = loop.world;
          server = loop.server;
          returns = rw c.returns loop.returns;
          valid = loop.valid;
          same_acceptors = loop.same_acceptors;
          growth = loop.growth;
          others = λ q left m. loop.others q (Unready-Collected nl hl set w srv q v c left) m;
        },
        λ p fd s m e h i. served p s (c.complete p fd s m e h i) e,
      )
