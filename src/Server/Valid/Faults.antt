-- ===== src/Server/Valid/Faults.antt =====
-- Where a valid server does fault: after a failed `accept` (AcceptorSession::OnRead of tcp_session.cpp,
-- FillReadyRead of server.cpp), and where an acceptor comes to its end (~Session of session.cpp).
use mod_server.Prelude.{
  ℕ, ◌^◌, ◌<◌, ◌≡◌, inl, inr, refl, sym, ap, ◌∙◌, Bool, true, false, none, some, List, [], ◌∷◌,
  ◌++◌, arith, if◌then◌else◌,
}
use mod_server.Prelude.Int.{ℤ, pos, negsuc}
use mod_server.Prelude.Fault.{
  Result, ok, fault, bad_write, null_pointer, ◌>>=◌, >>=_assoc, >>=_same,
}
use mod_server.Server.PluginCalls.{PluginCalls, IsCallable}
use mod_server.PluginApi.Handler.{ProtocolHandler, HandlerLaws}
use mod_server.Socket.Net.{Net, NetLaws}
use mod_server.Socket.TcpSocket.{handle}
use mod_server.Server.FdSet.{FdSet, fd_zero, fd_set}
use mod_server.Server.Session.{
  connection, acceptor, Session, session_has_data, can_read, on_write, destroy_session,
}
use mod_server.Server.Store.{Server, load, store, remove_from_vector}
use mod_server.Server.Loop.{
  Select, fill, fill_ready_read, on_read, on_session_write, after_io, delete_session, send_loop,
  round,
}
use mod_server.Server.Failures.{acceptor_on_read_failed}
use mod_server.Server.Valid.{Member, IsValid, Supply}
use mod_server.Server.Valid.Lists.{remove-Removed}
use mod_server.Server.Valid.Round.{fill-Filled, can_read_answers}
use mod_server.Server.Valid.Touch.{on_read-acceptor}
use mod_server.Server.Valid.Keeps.{old-ne-next}

module _ {H : Type 0} (test : Session H → Result Bool) where
  -- The loop over two lists is one loop after the other.
  fill-append :
      (ps qs : List ℕ) (srv : Server H) (set : FdSet)
      → fill test (ps ++ qs) srv set ≡ (do set' ← fill test ps srv set; fill test qs srv set')
  unfolding fill
  fill-append [] qs srv set = refl
  fill-append (p ∷ ps) qs srv set =
      >>=_same (load p srv) (λ s.
        >>=_same (test s) (λ b.
          >>=_same (if b then fd_set (handle s.m_sock) set else ok set)
            (λ set'. fill-append ps qs srv set')
          ∙ sym (>>=_assoc (if b then fd_set (handle s.m_sock) set else ok set) _ _))
        ∙ sym (>>=_assoc (test s) _ _))
      ∙ sym (>>=_assoc (load p srv) _ _)

  -- The loop reads the sessions on its list only.
  fill-same :
      (ps : List ℕ) (srv srv' : Server H) (set : FdSet)
      → ((p : ℕ) → Member p ps → srv'.heap p ≡ srv.heap p)
      → fill test ps srv' set ≡ fill test ps srv set
  unfolding fill
  fill-same [] srv srv' set same = refl
  fill-same (p ∷ ps) srv srv' set same = rw (same p (inl refl)) (
      >>=_same (load p srv) (λ s. >>=_same (test s) (λ b.
        >>=_same (if b then fd_set (handle s.m_sock) set else ok set)
          (λ set'. fill-same ps srv srv' set' (λ q m. same q (inr m))))))

  -- `FD_SET` on -1 writes outside of the set.
  fill-outside :
      (p : ℕ) (srv : Server H) (t : Session H) (set : FdSet)
      → srv.heap p ≡ some t
      → t.m_sock.m_socket ≡ negsuc 0
      → test t ≡ ok true
      → fill test (p ∷ []) srv set ≡ fault bad_write
  unfolding fill fd_set
  fill-outside p srv t set e outside passes = ground (arith, e, outside, passes)

module _ {W H : Type 0} {net : Net W} {ops : ProtocolHandler H} (nl : NetLaws net)
    (hl : HandlerLaws ops) (sup : Supply nl) (calls : PluginCalls H) where
  -- Where a session on -1 that may read stands last, behind those of a valid server, the read set cannot
  -- be made: `FD_SET` writes outside of it.
  fill_ready_read-outside :
      (w : W) (srv srv' : Server H) (t : Session H)
      → IsValid nl hl w srv
      → srv'.m_sessions ≡ srv.m_sessions ++ srv.next ∷ []
      → ((p : ℕ) → Member p srv.m_sessions → srv'.heap p ≡ srv.heap p)
      → srv'.heap srv.next ≡ some t
      → t.m_sock.m_socket ≡ negsuc 0
      → can_read net ops t ≡ ok true
      → fill_ready_read net ops calls srv' fd_zero ≡ fault bad_write
  unfolding fill_ready_read
  fill_ready_read-outside w srv srv' t v listed same last outside reads =
      let r =
        fill-Filled nl hl (can_read net ops) w srv v (can_read_answers nl hl w srv.m_max_fd)
          srv.m_sessions fd_zero (λ p m. m) in
      ap (λ ps. fill (can_read net ops) ps srv' fd_zero) listed
      ∙ fill-append (can_read net ops) srv.m_sessions (srv.next ∷ []) srv' fd_zero
      ∙ rw (fill-same (can_read net ops) srv.m_sessions srv srv' fd_zero same, r.returns)
          (fill-outside (can_read net ops) srv.next srv' t r.filled last outside reads)

  -- An idle connection reads.
  idle-reads :
      (t : Session H) (h : H)
      → t.kind ≡ connection
      → t.m_proto_handler ≡ some h
      → ops.has_data_to_send h ≡ false
      → can_read net ops t ≡ ok true
  unfolding can_read session_has_data
  idle-reads t h k e idle = ground (arith, k, e, idle)

  round-fault :
      (select : Select W) (w : W) (srv : Server H)
      → fill_ready_read net ops calls srv fd_zero ≡ fault bad_write
      → round net ops calls select w srv ≡ fault bad_write
  unfolding round
  round-fault select w srv e = rw e refl

  -- Where `accept` fails on a listed acceptor of a valid server, and the calls on its plugin return and
  -- give a handler with nothing to send, `OnRead` returns 1, and every later round that finds this server faults: the read set
  -- is written outside of its bounds.
  pub round-after_failed_accept :
      (select : Select W) (w : W) (srv : Server H) (p plugin : ℕ) (s : Session H)
      (c : IsCallable calls plugin)
      → IsValid nl hl w srv
      → srv.m_max_fd < 2 ^ 32
      → srv.heap p ≡ some s
      → s.kind ≡ acceptor plugin
      → (net.sys_accept s.m_sock.m_socket w).0 ≡ negsuc 0
      → ops.has_data_to_send c.handler ≡ false
      → (err : ℤ) × (w' : W) × (srv' : Server H) × (on_read net ops calls p w srv
          ≡ ok (pos 1, err, w', srv'))
        × ((later : W) → round net ops calls select later srv' ≡ fault bad_write)
  round-after_failed_accept select w srv p plugin s c v small at_p k failed idle =
      let (err, w', srv', t, e, _, listed, last, outside, kind, handler, same) =
        acceptor_on_read_failed net ops calls plugin s w srv c failed small in
      let fails =
        fill_ready_read-outside w srv srv' t v listed
          (λ q m. same q (old-ne-next nl hl w w srv v (λ i o. o) q m)) last outside
          (idle-reads t c.handler kind handler idle) in
      (
        err,
        w',
        srv',
        on_read-acceptor nl hl sup calls p w srv s plugin at_p k ∙ e,
        λ later. round-fault select later srv' fails,
      )

  on_session_write-acceptor :
      (p plugin : ℕ) (w : W) (srv : Server H) (s : Session H)
      → srv.heap p ≡ some s
      → s.kind ≡ acceptor plugin
      → on_session_write net ops calls p w srv ≡ ok (pos 0, pos 0, w, store p (some s) srv)
  unfolding on_session_write on_write
  on_session_write-acceptor p plugin w srv s e k = ground (arith, e, k)

  delete_session-acceptor :
      (p : ℕ) (w : W) (srv : Server H) (s : Session H) (ys : List ℕ)
      → srv.heap p ≡ some s
      → s.m_proto_handler ≡ none
      → remove_from_vector p srv.m_sessions ≡ ok ys
      → delete_session net ops calls p w srv ≡ fault null_pointer
  unfolding delete_session destroy_session
  delete_session-acceptor p w srv s ys e none_given removed = ground (arith, e, none_given, removed)

  after_io-ended :
      (p : ℕ) (w : W) (srv : Server H)
      → after_io net ops calls p (pos 0) w srv ≡ delete_session net ops calls p w srv
  unfolding after_io
  after_io-ended p w srv = refl

  -- An acceptor whose descriptor is in the write set ends the server: `OnWrite` returns 0, so the session
  -- is deleted, and its destructor goes through a handler that is NULL.
  pub send_loop-acceptor :
      (w : W) (srv : Server H) (p plugin : ℕ) (ps : List ℕ) (s : Session H)
      → IsValid nl hl w srv
      → Member p srv.m_sessions
      → srv.heap p ≡ some s
      → s.kind ≡ acceptor plugin
      → s.m_proto_handler ≡ none
      → send_loop net ops calls (p ∷ ps) w srv ≡ fault null_pointer
  unfolding send_loop
  send_loop-acceptor w srv p plugin ps s v m at_p k none_given =
      let (ys, removed, _) = remove-Removed p srv.m_sessions v.distinct m in
      rw
        (
          on_session_write-acceptor p plugin w srv s at_p k,
          after_io-ended p w (store p (some s) srv),
          delete_session-acceptor p w (store p (some s) srv) s ys (ground arith) none_given removed,
        )
        refl
