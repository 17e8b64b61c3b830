-- ===== src/Server/Valid/Writes.antt =====
-- The loop of `SendData` on listed connections, where the server is valid.
use mod_server.Prelude.{ap, ℕ, ◌≡◌, ◌≢◌, inl, inr, refl, ◌∙◌, some, List, [], ◌∷◌, arith}
use mod_server.Prelude.Fault.{ok, ◌>>=◌, >>=-chain}
use mod_server.Server.PluginCalls.{PluginCalls}
use mod_server.PluginApi.Handler.{ProtocolHandler, HandlerLaws}
use mod_server.Socket.Net.{Net, NetLaws}
use mod_server.Server.Session.{connection, Session, on_write, connection_on_write}
use mod_server.Server.Store.{Server, store}
use mod_server.Server.Loop.{on_session_write, send_loop}
use mod_server.Server.Valid.{Member, Distinct, IsValid, Supply}
use mod_server.Server.Valid.Sessions.{connection_on_write-Serves}
use mod_server.Server.Valid.Touch.{Supplied, Touched, served-Touched, connection_handler}
use mod_server.Server.Valid.Ends.{SameAcceptors-trans, Grows-trans, io-Ended, Looped}
use mod_server.Server.Valid.Deletes.{Ended}
use mod_server.Server.Valid.Fate.{Settled, with_io, Served, call-Served}

module _ {W H : Type 0} {net : Net W} {ops : ProtocolHandler H} (nl : NetLaws net)
    (hl : HandlerLaws ops) (sup : Supply nl) (calls : PluginCalls H) where
  -- A listed connection.
  abbrev pub IsConnection : Server H → ℕ → Type 0
  IsConnection srv p =
      Member p srv.m_sessions × ((s : Session H) × (srv.heap p ≡ some s) × (s.kind ≡ connection))

  on_session_write-connection :
      (p : ℕ) (w : W) (srv : Server H) (s : Session H)
      → srv.heap p ≡ some s
      → s.kind ≡ connection
      → on_session_write net ops calls p w srv ≡ (do
        (rc, err, s', w') ← connection_on_write net ops s w
        ok (rc, err, w', store p (some s') srv))
  unfolding on_session_write on_write
  on_session_write-connection p w srv s e k = ground arith

  write-Touched :
      (p : ℕ) (w : W) (srv : Server H)
      → IsValid nl hl w srv
      → IsConnection srv p
      → Touched nl hl sup calls p w srv (on_session_write net ops calls p w srv)
  write-Touched p w srv v (m, (s, e, k)) =
      let (h, is_h, ready) = connection_handler nl hl sup calls p w srv s v m e k in
      rw (on_session_write-connection p w srv s e k) (
        served-Touched nl hl sup calls p w srv s _ v m e k
          (connection_on_write-Serves nl hl sup s w h is_h ready))

  -- `OnWrite` was called once on the session.
  abbrev pub Written : ℕ → Session H → Server H → Type 0
  Written = Served nl hl sup calls (connection_on_write net ops)

  write-Served :
      (p : ℕ) (w : W) (srv : Server H) (s : Session H) (final : Server H)
      → IsValid nl hl w srv
      → Member p srv.m_sessions
      → srv.heap p ≡ some s
      → s.kind ≡ connection
      → (d : Ended nl hl sup calls
          (Supplied nl hl sup calls p w srv)
          p
          w
          srv
          (with_io nl hl sup calls p (on_session_write net ops calls p w srv)))
      → Settled nl hl sup calls p d.server final
      → Written p s final
  write-Served p w srv s final v m e k d settled =
      let (h, is_h, ready) = connection_handler nl hl sup calls p w srv s v m e k in
      call-Served nl hl sup calls (connection_on_write net ops) p w srv s final _ v m
        (on_session_write-connection p w srv s e k)
        (connection_on_write-Serves nl hl sup s w h is_h ready)
        (write-Touched p w srv v (m, (s, e, k))) d settled

  pub send_loop-Looped :
      (ps : List ℕ) (w : W) (srv : Server H)
      → IsValid nl hl w srv
      → Distinct ps
      → ((p : ℕ) → Member p ps → IsConnection srv p)
      → (l : Looped nl hl sup calls (λ q. ¬ (Member q ps)) srv (send_loop net ops calls ps w srv))
        × ((p : ℕ) (s : Session H) → Member p ps → srv.heap p ≡ some s → Written p s l.server)
  unfolding send_loop
  send_loop-Looped [] w srv v d m = (
    record {
      world = w;
      server = srv;
      returns = refl;
      valid = v;
      same_acceptors = λ p plugin s mp e k. (mp, e);
      growth = (omega arith, λ q mq. inl mq);
      others = λ q left m. (m, refl);
    },
    λ p s mp e. absurd mp,
  )
  send_loop-Looped (p ∷ ps) w srv v (out, d) m =
      let here = m p (inl refl) in
      let t = io-Ended nl hl sup calls p w srv _ here.0 (write-Touched p w srv v here) in
      let apart : (q : ℕ) → Member q ps → q ≢ p = λ q mq e. out (rw e at mq) in
      let (rest, served) = send_loop-Looped ps t.world t.server t.valid d (λ q mq.
        let ne = apart q mq in
        let (mem, (s, e, k)) = m q (inr mq) in (t.stays q ne mem, (s, t.others q ne mem ∙ e, k))) in
      (
        record {
          world = rest.world;
          server = rest.server;
          returns =
              >>=-chain (on_session_write net ops calls p w srv) _
                (λ x. send_loop net ops calls ps x.0 x.1) t.returns rest.returns;
          valid = rest.valid;
          same_acceptors =
              SameAcceptors-trans nl hl sup calls srv t.server rest.server t.same_acceptors
                rest.same_acceptors;
          growth = Grows-trans nl hl sup calls srv t.server rest.server t.growth rest.growth;
          others = λ q left m.
              let ne : q ≢ p = λ e. left (inl e) in
              let (m', e') = rest.others q (λ i. left (inr i)) (t.stays q ne m) in
              (m', e' ∙ t.others q ne m);
        },
        λ q s mq e. elim mq [
          | inl same ↦
              (let at_p : srv.heap p ≡ some s = rw same at e in
                let (s0, e0, k0) = here.1 in
                let is_s : s ≡ s0 = cc (at_p, e0) in
                rw same (
                  write-Served p w srv s rest.server v here.0 at_p
                    (ap (λ (x : Session H). x.kind) is_s ∙ k0) t (rest.others p out, rest.growth)))
          | inr mq' ↦ served q s mq' (t.others q (apart q mq') (m q (inr mq')).0 ∙ e)
        ],
      )
