-- ===== src/Server/Valid/Fate.antt =====
-- What becomes of a session that is read or written in one of the server's loops.
use mod_server.Prelude.{ap, ℕ, ◌<◌, ◌≡◌, inl, inr, refl, sym, ◌∙◌, true, false, some, arith}
use mod_server.Prelude.Int.{ℤ}
use mod_server.Prelude.Fault.{Result, ok, ◌>>=◌}
use mod_server.Server.PluginCalls.{PluginCalls}
use mod_server.PluginApi.Handler.{ProtocolHandler, HandlerLaws}
use mod_server.Socket.Net.{Net, NetLaws}
use mod_server.Server.Session.{Session, is_pos}
use mod_server.Server.Store.{Server, store}
use mod_server.Server.Loop.{after_io, delete_session}
use mod_server.Server.Valid.{Member, IsValid, Supply}
use mod_server.Server.Valid.Sessions.{Serves}
use mod_server.Server.Valid.Touch.{Grows, Touched, Supplied}
use mod_server.Server.Valid.Deletes.{Ended, delete_session-gone}

module _ {W H : Type 0} {net : Net W} {ops : ProtocolHandler H} (nl : NetLaws net)
    (hl : HandlerLaws ops) (sup : Supply nl) (calls : PluginCalls H) where
  -- After a call on the session `p` that gave `rc` and left it as `after`: on the list if `rc` is
  -- positive, and not on it if not.
  abbrev pub Fate : ℕ → ℤ → Session H → Server H → Type 0
  Fate p rc after final =
      (is_pos rc ≡ true → Member p final.m_sessions × (final.heap p ≡ some after))
      × (is_pos rc ≡ false → ¬ (Member p final.m_sessions))

  -- Nothing that happens later to other sessions changes the list or the heap at `p`.
  abbrev pub Settled : ℕ → Server H → Server H → Type 0
  Settled p srv final =
      (Member p srv.m_sessions → Member p final.m_sessions × (final.heap p ≡ srv.heap p))
      × Grows nl hl sup calls srv final

  -- A call on a session with what follows it.
  abbrev pub with_io : ℕ → Result (ℤ × ℤ × W × Server H) → Result (W × Server H)
  with_io p r = do (rc, err, w1, srv1) ← r; after_io net ops calls p rc w1 srv1

  pub io-Fate :
      (p : ℕ) (w : W) (srv : Server H) (r : Result (ℤ × ℤ × W × Server H)) (after : Session H)
      (final : Server H)
      → IsValid nl hl w srv
      → Member p srv.m_sessions
      → (t : Touched nl hl sup calls p w srv r) → t.server.heap p ≡ some after
      → (d : Ended nl hl sup calls (Supplied nl hl sup calls p w srv) p w srv (with_io p r))
      → Settled p d.server final
      → Fate p t.rc after final
  unfolding after_io
  io-Fate p w srv r after final v m t at_p d (further, grown) = (
    λ more.
        let computed : with_io p r ≡ ok (t.world, t.server) = rw (t.returns, more) refl in
        let same : d.server ≡ t.server = cc (d.returns, computed) in
        let (m', e') = further (rw same (t.stays p m)) in
        (m', e' ∙ ap (λ (x : Server H). x.heap p) same ∙ at_p),
    λ done m'.
        let (s, e, k) = t.ends done in
        let computed : with_io p r ≡ delete_session net ops calls p t.world t.server =
          rw (t.returns, done) refl in
        elim (grown.1 p m') [
          | inl still ↦
              delete_session-gone nl hl sup calls p t.world d.world t.server d.server s t.valid
                (t.stays p m) e k (sym computed ∙ d.returns) still
          | inr new ↦ absurd (omega (arith, v.fresh p m, d.growth.0))
        ],
  )

  -- The call, `OnRead` or `OnWrite` of a connection, was made once on the session as it was, in some
  -- world. Where its result is positive the session is on the list as the call left it, and where not
  -- it is on the list no more.
  pub record Served (call : Session H → W → Result (ℤ × ℤ × Session H × W)) (p : ℕ) (s : Session H)
      (final : Server H) : Type 0 where
    pub start : W
    pub rc : ℤ
    pub err : ℤ
    pub after : Session H
    pub world : W
    pub returns : call s start ≡ ok (rc, err, after, world)
    pub same_socket : after.m_sock.m_socket ≡ s.m_sock.m_socket
    pub fate : Fate p rc after final

  pub call-Served :
      (call : Session H → W → Result (ℤ × ℤ × Session H × W)) (p : ℕ) (w : W) (srv : Server H)
      (s : Session H) (final : Server H) (r : Result (ℤ × ℤ × W × Server H))
      → IsValid nl hl w srv
      → Member p srv.m_sessions
      → r ≡ (do (rc, err, s', w') ← call s w; ok (rc, err, w', store p (some s') srv))
      → Serves nl hl sup s w (call s w)
      → Touched nl hl sup calls p w srv r
      → (d : Ended nl hl sup calls (Supplied nl hl sup calls p w srv) p w srv (with_io p r))
      → Settled p d.server final
      → Served call p s final
  call-Served call p w srv s final r v m is_call sv t d settled =
      let after : Session H = record s { m_proto_handler = some sv.handler } in
      let computed : r ≡ ok (sv.rc, sv.err, sv.world, store p (some after) srv) =
        rw sv.returns at is_call in
      let is_rc : t.rc ≡ sv.rc = cc (t.returns, computed) in
      let same : t.server ≡ store p (some after) srv = cc (t.returns, computed) in
      let stored : (store p (some after) srv).heap p ≡ some after = ground arith in
      record {
        start = w;
        rc = sv.rc;
        err = sv.err;
        after = after;
        world = sv.world;
        returns = sv.returns;
        same_socket = refl;
        fate = rw (← is_rc) (
            io-Fate p w srv r after final v m t (ap (λ (x : Server H). x.heap p) same ∙ stored) d
              settled);
      }

  -- What was true of a session is true later.
  pub Served-later :
      (call : Session H → W → Result (ℤ × ℤ × Session H × W)) (p : ℕ) (s : Session H)
      (mid final : Server H)
      → p < mid.next
      → Settled p mid final
      → Served call p s mid
      → Served call p s final
  Served-later call p s mid final old (further, grown) sv = record {
    start = sv.start;
    rc = sv.rc;
    err = sv.err;
    after = sv.after;
    world = sv.world;
    returns = sv.returns;
    same_socket = sv.same_socket;
    fate = (
      λ more. let (m, e) = sv.fate.0 more in let (m', e') = further m in (m', e' ∙ e),
      λ done m'. elim (grown.1 p m') [
        | inl still ↦ sv.fate.1 done still
        | inr new ↦ absurd (omega (arith, old))
      ],
    );
  }
