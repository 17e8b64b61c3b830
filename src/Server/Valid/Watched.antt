-- ===== src/Server/Valid/Watched.antt =====
-- What `Run` asks `select` about (FillReadyRead and FillReadyWrite of server_core/server.cpp).
use mod_server.Prelude.{
  ℕ, ◌<◌, ◌≡◌, ◌⊎◌, inl, inr, refl, sym, ap, ◌∙◌, Bool, true, false, not, Option, none, some, arith,
  ◌==◌, Bool-cases,
}
use mod_server.Prelude.Int.{pos}
use mod_server.Prelude.Fault.{Result, ok}
use mod_server.Server.PluginCalls.{PluginCalls}
use mod_server.PluginApi.Handler.{ProtocolHandler, HandlerLaws}
use mod_server.Socket.Net.{Net, NetLaws}
use mod_server.Server.FdSet.{FdSet, fd_zero}
use mod_server.Server.Session.{Kind, connection, acceptor, Session, session_has_data, can_read}
use mod_server.Server.Store.{Server}
use mod_server.Server.Loop.{fill_ready_read, fill_ready_write}
use mod_server.Server.Valid.{Member, HasHandler, IsGood, IsValid}
use mod_server.Server.Valid.Round.{Filled, fill-Filled}

module _ {W H : Type 0} {net : Net W} {ops : ProtocolHandler H} (nl : NetLaws net)
    (hl : HandlerLaws ops) where
  -- A listed session reads exactly if it has nothing to send.
  both_answer :
      (w : W) (max_fd : ℕ) (s : Session H)
      → IsGood nl hl w max_fd s
      → (b : Bool) × (session_has_data net ops s ≡ ok b) × (can_read net ops s ≡ ok (not b))
  unfolding session_has_data can_read
  both_answer w max_fd s g = go s.kind s.m_proto_handler g.handled
    where
      go :
          (kind : Kind) (h? : Option H)
          → HasHandler nl hl kind h?
          → (b : Bool) × (session_has_data net ops
                (record { m_sock = s.m_sock; m_proto_handler = h?; kind = kind })
              ≡ ok b)
            × (can_read net ops (record { m_sock = s.m_sock; m_proto_handler = h?; kind = kind })
                ≡ ok (not b))
      go connection none r = absurd r
      go connection (some h) r = (ops.has_data_to_send h, refl, refl)
      go (acceptor plugin) h? r = (false, refl, refl)

  -- A session that fails a test is not in the set that the test fills, since no other session is on its
  -- descriptor.
  misses :
      (test : Session H → Result Bool) (w : W) (srv : Server H) (r : Result FdSet)
      → IsValid nl hl w srv
      → (f : Filled nl hl test srv.m_sessions srv fd_zero r) → (p k : ℕ) (s : Session H)
      → Member p srv.m_sessions
      → srv.heap p ≡ some s
      → s.m_sock.m_socket ≡ pos k
      → test s ≡ ok false
      → f.filled k ≡ false
  misses test w srv r v f p k s m e sock fails = elim (Bool-cases (f.filled k)) [
    | inr unset ↦ unset
    | inl is_set ↦ elim (f.why k is_set) [
      | inl never ↦ absurd (cc)
      | inr (q, a, mq, g, sock_a, passes) ↦ elim (Bool-cases (p == q)) [
        | inl same ↦
            let is_q : p ≡ q = ground arith in
            let is_s : s ≡ a = cc (e, g, ap srv.heap is_q) in
            absurd (cc (fails, passes, ap test is_s))
        | inr other ↦ absurd (v.apart p q s a m mq (ground arith) e g (sock ∙ sym sock_a))
      ]
    ]
  ]

  -- On a valid server the sets for `select` are made without a fault. A session's descriptor is in
  -- exactly one of them: in the write set if the session has data to send, in the read set if not. Both
  -- hold descriptors of sessions only, all of them below the bound that `select` is given.
  pub fill_ready-splits :
      (calls : PluginCalls H) (w : W) (srv : Server H)
      → IsValid nl hl w srv
      → (rs ws : FdSet) × (fill_ready_read net ops calls srv fd_zero ≡ ok rs)
        × (fill_ready_write net ops calls srv fd_zero ≡ ok ws)
        × ((p k : ℕ) (s : Session H)
            → Member p srv.m_sessions
            → srv.heap p ≡ some s
            → s.m_sock.m_socket ≡ pos k
            → (session_has_data net ops s ≡ ok (ws k)) × (rs k ≡ not (ws k)))
        × ((k : ℕ)
            → (rs k ≡ true) ⊎ (ws k ≡ true)
            → (p : ℕ) × (s : Session H) × Member p srv.m_sessions
              × (srv.heap p ≡ some s)
              × (s.m_sock.m_socket ≡ pos k)
              × (k < srv.m_max_fd))
  unfolding fill_ready_read fill_ready_write
  fill_ready-splits calls w srv v =
      let r =
        fill-Filled nl hl (can_read net ops) w srv v
          (λ s g. let (b, _, e) = both_answer w srv.m_max_fd s g in (not b, e)) srv.m_sessions
          fd_zero (λ p m. m) in
      let s =
        fill-Filled nl hl (session_has_data net ops) w srv v
          (λ s g. let (b, e, _) = both_answer w srv.m_max_fd s g in (b, e)) srv.m_sessions fd_zero
          (λ p m. m) in
      (
        r.filled,
        s.filled,
        r.returns,
        s.returns,
        (λ p k a m e sock.
            let g : IsGood nl hl w srv.m_max_fd a = v.good p a m e in
            let (b, has, can) = both_answer w srv.m_max_fd a g in
            elim (Bool-cases b) [
              | inl busy ↦
                  let has_it : session_has_data net ops a ≡ ok true = has ∙ ap ok busy in
                  let cannot : can_read net ops a ≡ ok false = can ∙ ap (λ x. ok (not x)) busy in
                  let in_write = s.hits p k a m e sock has_it in
                  let not_read = misses (can_read net ops) w srv _ v r p k a m e sock cannot in
                  (has_it ∙ ap ok (sym in_write), not_read ∙ ap not (sym in_write))
              | inr idle ↦
                  let has_none : session_has_data net ops a ≡ ok false = has ∙ ap ok idle in
                  let can_it : can_read net ops a ≡ ok true = can ∙ ap (λ x. ok (not x)) idle in
                  let not_write =
                    misses (session_has_data net ops) w srv _ v s p k a m e sock has_none in
                  let in_read = r.hits p k a m e sock can_it in
                  (has_none ∙ ap ok (sym not_write), in_read ∙ ap not (sym not_write))
            ]),
        (λ k either.
            let found : (p : ℕ) × (a : Session H) × Member p srv.m_sessions
                × (srv.heap p ≡ some a)
                × (a.m_sock.m_socket ≡ pos k) =
              elim either [
                | inl in_read ↦ elim (r.why k in_read) [
                  | inl never ↦ absurd (cc)
                  | inr (p, a, m, e, sock, _) ↦ (p, a, m, e, sock)
                ]
                | inr in_write ↦ elim (s.why k in_write) [
                  | inl never ↦ absurd (cc)
                  | inr (p, a, m, e, sock, _) ↦ (p, a, m, e, sock)
                ]
              ] in
            let (p, a, m, e, sock) = found in
            let g : IsGood nl hl w srv.m_max_fd a = v.good p a m e in
            let is_k : g.fd ≡ k = cc (g.handle_is, sock) in
            (p, a, m, e, sock, rw is_k at g.watched)),
      )
