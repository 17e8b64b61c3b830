-- ===== src/Server/Valid/Ends.antt =====
-- A session after it was read or written, and what a loop over sessions gives.
use mod_server.Prelude.{ℕ, arith, ◌≡◌, inl, inr, ◌∙◌, Bool-cases}
use mod_server.Prelude.Int.{ℤ}
use mod_server.Prelude.Fault.{Result, ok, ◌>>=◌}
use mod_server.Server.PluginCalls.{PluginCalls}
use mod_server.PluginApi.Handler.{ProtocolHandler, HandlerLaws}
use mod_server.Socket.Net.{Net, NetLaws}
use mod_server.Server.Session.{is_pos}
use mod_server.Server.Store.{Server}
use mod_server.Server.Loop.{after_io}
use mod_server.Server.Valid.{Member, IsValid, Supply}
use mod_server.Server.Valid.Touch.{SameAcceptors, Grows, Touched, Supplied}
use mod_server.Server.Valid.Deletes.{Ended, delete-Ended}

module _ {W H : Type 0} {net : Net W} {ops : ProtocolHandler H} (nl : NetLaws net)
    (hl : HandlerLaws ops) (sup : Supply nl) (calls : PluginCalls H) where
  pub SameAcceptors-trans :
      (a b c : Server H)
      → SameAcceptors nl hl sup calls a b
      → SameAcceptors nl hl sup calls b c
      → SameAcceptors nl hl sup calls a c
  SameAcceptors-trans a b c f g p plugin s m e k =
      let (m', e') = g p plugin s m e k in f p plugin s m' e' k

  pub Grows-trans :
      (a b c : Server H)
      → Grows nl hl sup calls a b
      → Grows nl hl sup calls b c
      → Grows nl hl sup calls a c
  Grows-trans a b c f g = (
    omega (arith, f.0, g.0),
    λ q m. elim (g.1 q m) [ inl old ↦ f.1 q old | inr new ↦ inr (omega (arith, f.0)) ],
  )

  -- After a read or a write the session stays, or it is deleted.
  pub io-Ended :
      (p : ℕ) (w : W) (srv : Server H) (r : Result (ℤ × ℤ × W × Server H))
      → Member p srv.m_sessions
      → Touched nl hl sup calls p w srv r
      → Ended nl hl sup calls
          (Supplied nl hl sup calls p w srv)
          p
          w
          srv
          (do (rc, err, w1, srv1) ← r; after_io net ops calls p rc w1 srv1)
  unfolding after_io
  io-Ended p w srv r m t = elim (Bool-cases (is_pos t.rc)) [
    | inl more ↦ record {
      world = t.world;
      server = t.server;
      returns = rw (t.returns, more);
      valid = t.valid;
      stays = λ q ne mq. t.stays q mq;
      same_acceptors = t.same_acceptors;
      growth = t.growth;
      others = t.others;
      leaves = t.leaves;
    }
    | inr done ↦
        let (s, e, k) = t.ends done in
        let d = delete-Ended nl hl sup calls p t.world t.server s t.valid (t.stays p m) e k in
        record {
          world = d.world;
          server = d.server;
          returns = rw (t.returns, done) d.returns;
          valid = d.valid;
          stays = λ q ne mq. d.stays q ne (t.stays q mq);
          same_acceptors =
              SameAcceptors-trans srv t.server d.server t.same_acceptors d.same_acceptors;
          growth = Grows-trans srv t.server d.server t.growth d.growth;
          others = λ q ne mq. d.others q ne (t.stays q mq) ∙ t.others q ne mq;
          leaves = λ fds given. d.leaves fds (t.leaves fds given);
        }
  ]

  -- What a whole loop gives, where it leaves some sessions alone.
  pub record Looped (Left : ℕ → Type 0) (srv : Server H) (r : Result (W × Server H)) : Type 0 where
    pub world : W
    pub server : Server H
    pub returns : r ≡ ok (world, server)
    pub valid : IsValid nl hl world server
    pub same_acceptors : SameAcceptors nl hl sup calls srv server
    pub growth : Grows nl hl sup calls srv server
    pub others :
        (q : ℕ)
        → Left q
        → Member q srv.m_sessions
        → Member q server.m_sessions × (server.heap q ≡ srv.heap q)
