-- ===== src/Server/Valid/Reads.antt =====
-- `ReadData`, where the server is valid.
use mod_server.Prelude.{arith, ◌∙◌, ℕ, ◌≡◌, ◌≢◌, inl, inr, refl, true, some, List, [], ◌∷◌}
use mod_server.Prelude.Int.{ℤ, pos}
use mod_server.Prelude.Fault.{>>=-chain}
use mod_server.PluginApi.DataChunk.{m_buf_size}
use mod_server.Server.PluginCalls.{PluginCalls, IsCallable}
use mod_server.PluginApi.Handler.{ProtocolHandler, HandlerLaws}
use mod_server.Socket.Net.{Net, NetLaws}
use mod_server.Server.FdSet.{FdSet}
use mod_server.Server.Session.{Session}
use mod_server.Server.Store.{Server}
use mod_server.Server.Loop.{on_read, read_loop, read_data}
use mod_server.Server.Valid.{Member, Distinct, IsValid, Supply}
use mod_server.Server.Valid.Touch.{read-Touched, Supplied}
use mod_server.Server.Valid.Ends.{SameAcceptors-trans, Grows-trans, io-Ended, Looped}
use mod_server.Server.Valid.Answers.{Answered, Answered-sooner, read-Answered}
use mod_server.Server.Valid.Collect.{
  collect-Collected, Unready, Unready-Collected, Sockets, Sockets-keep, valid-Sockets,
  Sockets-in_set,
}

module _ {W H : Type 0} {net : Net W} {ops : ProtocolHandler H} (nl : NetLaws net)
    (hl : HandlerLaws ops) (sup : Supply nl) (calls : PluginCalls H) where
  module _ (handlers : (plugin : ℕ) → (c : IsCallable calls plugin) × hl.IsReady c.handler)
      (never_fills : (fd : ℤ) (w : W) → (net.sys_recv fd m_buf_size w).0.0 ≢ pos m_buf_size) where
    read_loop-Looped :
        (ps fds : List ℕ) (w : W) (srv : Server H)
        → IsValid nl hl w srv
        → Distinct ps
        → ((p : ℕ) → Member p ps → Member p srv.m_sessions)
        → Sockets nl hl srv ps fds
        → sup.Accepts fds w
        → (l : Looped nl hl sup calls (λ q. ¬ (Member q ps)) srv (read_loop net ops calls ps w srv))
          × ((p : ℕ) (s : Session H)
              → Member p ps
              → srv.heap p ≡ some s
              → Answered nl hl sup calls s.kind p s srv l.server)
    unfolding read_loop
    read_loop-Looped [] fds w srv v d m ss a = (
      record {
        world = w;
        server = srv;
        returns = refl;
        valid = v;
        same_acceptors = λ p plugin s mp e k. (mp, e);
        growth = (omega arith, λ q mq. inl mq);
        others = λ q left m. (m, refl);
      },
      λ p s mp e. absurd mp,
    )
    read_loop-Looped (p ∷ ps) [] w srv v d m ss a = absurd ss
    read_loop-Looped (p ∷ ps) (fd ∷ fds) w srv v (out, d) m ((s, e, h), ss) a =
        let here = m p (inl refl) in
        let given : Supplied nl hl sup calls p w srv fds = (fd, s, e, h, a) in
        let t =
          io-Ended nl hl sup calls p w srv _ here
            (read-Touched nl hl sup calls handlers never_fills p w srv v here fds given) in
        let apart : (q : ℕ) → Member q ps → q ≢ p = λ q mq f. out (rw f at mq) in
        let kept =
          Sockets-keep nl hl srv t.server ps fds (λ q mq. t.others q (apart q mq) (m q (inr mq)))
            ss in
        let (rest, answered) =
          read_loop-Looped ps fds t.world t.server t.valid d
            (λ q mq. t.stays q (apart q mq) (m q (inr mq))) kept (t.leaves fds given) in
        let next_out : ¬ (Member srv.next ps) =
          λ mn. absurd (omega (arith, v.fresh srv.next (m srv.next (inr mn)))) in
        (
          record {
            world = rest.world;
            server = rest.server;
            returns =
                >>=-chain (on_read net ops calls p w srv) _
                  (λ x. read_loop net ops calls ps x.0 x.1) t.returns rest.returns;
            valid = rest.valid;
            same_acceptors =
                SameAcceptors-trans nl hl sup calls srv t.server rest.server t.same_acceptors
                  rest.same_acceptors;
            growth = Grows-trans nl hl sup calls srv t.server rest.server t.growth rest.growth;
            others = λ q left m.
                let ne : q ≢ p = λ e. left (inl e) in
                let (m', e') = rest.others q (λ i. left (inr i)) (t.stays q ne m) in
                (m', e' ∙ t.others q ne m);
          },
          λ q x mq at_q. elim mq [
            | inl same ↦
                let at_p : srv.heap p ≡ some x = rw same at at_q in
                let is_s : s ≡ x = cc (at_p, e) in
                rw same (
                  read-Answered nl hl sup calls handlers never_fills p fd w srv x fds rest.server v
                    here at_p (rw is_s at h) a t (rest.others p out, rest.growth)
                    (rest.others srv.next next_out, rest.growth))
            | inr mq' ↦
                Answered-sooner nl hl sup calls x.kind q x srv t.server rest.server t.growth.0
                  (answered q x mq' (t.others q (apart q mq') (m q (inr mq')) ∙ at_q))
          ],
        )

    -- Where `accept` succeeds on each listening socket whose descriptor is in the set, with a descriptor
    -- below FD_SETSIZE, the calls on the plugins return and give ready handlers, and no `recv` fills its buffer, `ReadData` faults nowhere on a valid server and leaves a valid one, in
    -- which no acceptor is new. It calls `OnRead` on every session whose descriptor is in the set, as the
    -- session was before: an acceptor accepts a connection, which joins the list, and stays as it was; a
    -- connection whose call gave a positive result is on the list as the call left it, and another one is
    -- on the list no more. A session whose descriptor is not in the set stays on the list, just as it was.
    pub read_data-Answered :
        (set : FdSet) (w : W) (srv : Server H)
        → IsValid nl hl w srv
        → ((fds : List ℕ)
            → Distinct fds
            → ((k : ℕ) → Member k fds → set k ≡ true)
            → sup.Accepts fds w)
        → (l : Looped nl hl sup calls
            (Unready nl hl set srv)
            srv
            (read_data net ops calls set w srv))
          × ((p fd : ℕ) (s : Session H)
              → Member p srv.m_sessions
              → srv.heap p ≡ some s
              → s.m_sock.m_socket ≡ pos fd
              → set fd ≡ true
              → Answered nl hl sup calls s.kind p s srv l.server)
    unfolding read_data
    read_data-Answered set w srv v supplied =
        let c = collect-Collected nl hl set w srv v srv.m_sessions v.distinct (λ p m. m) in
        let (fds, ss, df) = valid-Sockets nl hl w srv v c.ready c.distinct c.among in
        let (loop, answered) =
          read_loop-Looped c.ready fds w srv v c.distinct c.among ss
            (supplied fds df (Sockets-in_set nl hl set srv.m_sessions srv _ c fds ss)) in
        (
          record {
            world = loop.world;
            server = loop.server;
            returns = rw c.returns loop.returns;
            valid = loop.valid;
            same_acceptors = loop.same_acceptors;
            growth = loop.growth;
            others = λ q left m. loop.others q (Unready-Collected nl hl set w srv q v c left) m;
          },
          λ p fd s m e h i. answered p s (c.complete p fd s m e h i) e,
        )
