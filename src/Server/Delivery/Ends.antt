-- ===== src/Server/Delivery/Ends.antt =====
-- Where the system keeps taking bytes, a connection gets rid of all that its handler has to send.
use mod_server.Prelude.{
  ℕ, zero, suc, ◌+◌, ◌≤◌, ◌<◌, ◌≡◌, ◌≢◌, ◌⊎◌, inl, inr, refl, sym, ap, ◌∙◌, false, some, [], ◌∷◌,
  ◌++◌, append-nil, arith, Bytes, length, take, drop_all, length-append, length-take, ◌^◌,
}
use mod_server.Prelude.Int.{pos}
use mod_server.Prelude.Fault.{ok}
use mod_server.PluginApi.Handler.{ProtocolHandler, StreamLaws}
use mod_server.Socket.Net.{Net, NetLaws}
use mod_server.Server.Session.{connection, Session, session_has_data}
use mod_server.Server.Delivery.{
  Sent, sent_more, Wrote, Delivered, connection_on_write-Wrote, Wrote-Delivered, Sent-Delivered,
  session_has_data-pending, Delivered-fits,
}
use mod_server.Socket.TcpSocket.{Socket}

pub nil_cases : (text : Bytes) → (text ≡ []) ⊎ (text ≢ [])
nil_cases [] = inl refl
nil_cases (c ∷ text) = inr (λ e. absurd (cc))

module _ {W H : Type 0} (net : Net W) (ops : ProtocolHandler H) (st : StreamLaws ops)
    (nl : NetLaws net) where
  -- A connection from whose socket the system takes at least one byte of every text.
  module _ (s : Session H)
      (takes : (text : Bytes) (w : W)
        → text ≢ []
        → (k : ℕ) × ((net.sys_send s.m_sock.m_socket text w).0 ≡ pos (suc k)))
      (world_at : ℕ → W) (h : H) (small : length (st.pending h) < 2 ^ 31) where
    one_more :
        (n : ℕ) (out : Bytes) (s' : Session H)
        → Sent net ops world_at s n out s'
        → (d : Delivered net ops st nl h s n out s') → st.pending d.handler ≢ []
        → (more : Bytes) × (t : Session H) × (Sent net ops world_at s (suc n) more t
            × (Delivered net ops st nl h s (suc n) more t × (length out < length more)))
    one_more n out s' sent d some_left =
        let rest = st.pending d.handler in
        let same_fd : s'.m_sock.m_socket ≡ s.m_sock.m_socket =
          ap (λ (sock : Socket). sock.m_socket) d.same_socket in
        let (k, is_k') = takes rest (world_at n) some_left in
        let is_k : (net.sys_send s'.m_sock.m_socket rest (world_at n)).0 ≡ pos (suc k) =
          rw same_fd is_k' in
        let (err, t, same, wrote) =
          connection_on_write-Wrote net ops st nl s' (world_at n) d.handler d.holds
            (Delivered-fits net ops st nl h s n out s' small d) in
        let w' = (net.sys_send s'.m_sock.m_socket rest (world_at n)).1 in
        let wrote_k : Wrote net ops st nl d.handler s' t (pos (suc k)) = rw is_k at wrote in
        (
          out ++ take (suc k) rest,
          t,
          (
            sent_more k err w' (take (suc k) rest) sent (
                rw is_k at same
                ∙ ap (λ fd. ok (pos (suc k), err, t, (w', (fd, take (suc k) rest) ∷ []))) same_fd),
            (
              Wrote-Delivered net ops st nl h s n out s' t k d wrote_k,
              omega (
                arith,
                wrote_k.in_queue (suc k) refl,
                length-append out (take (suc k) rest),
                length-take (suc k) rest,
              ),
            ),
          ),
        )

    -- Some number of sends that leaves nothing in the queue.
    abbrev pub Finishes : Type 0
    Finishes =
        (m : ℕ) × (last : Session H) × (Sent net ops world_at s m (st.pending h) last
          × ((d : Delivered net ops st nl h s m (st.pending h) last) × (st.pending d.handler ≡ [])))

    none_left :
        (n : ℕ) (out : Bytes) (s' : Session H)
        → Sent net ops world_at s n out s'
        → (d : Delivered net ops st nl h s n out s') → st.pending d.handler ≡ []
        → Finishes
    none_left n out s' sent d empty =
        let all : out ≡ st.pending h =
          sym (append-nil out) ∙ ap (◌++◌ out) (sym empty) ∙ d.all_there in
        rw (← all) (n, s', (sent, (d, empty)))

    finishes :
        (fuel n : ℕ) (out : Bytes) (s' : Session H)
        → Sent net ops world_at s n out s'
        → (d : Delivered net ops st nl h s n out s') → length (st.pending h) ≤ fuel + length out
        → Finishes
    finishes zero n out s' sent d enough =
        let rest = st.pending d.handler in
        none_left n out s' sent d
          (drop_all 0 rest (omega (arith, enough, length-append out rest, ap length d.all_there)))
    finishes (suc fuel) n out s' sent d enough = elim (nil_cases (st.pending d.handler)) [
      | inl empty ↦ none_left n out s' sent d empty
      | inr some_left ↦
          let (more, t, (sent', (d', longer))) = one_more n out s' sent d some_left in
          finishes fuel (suc n) more t sent' d' (omega arith)
    ]

    -- Where the system takes at least one byte of every text that is sent on the connection's socket, and
    -- the handler had less than 2^31 bytes to send: whatever sends came before and whatever worlds the
    -- calls find, some number of them, no more than those bytes, sends all of those on the socket and
    -- leaves the session with nothing to send.
    pub delivery_ends :
        (n : ℕ) (out : Bytes) (s' : Session H)
        → s.kind ≡ connection
        → s.m_proto_handler ≡ some h
        → Sent net ops world_at s n out s'
        → (m : ℕ) × (last : Session H) × Sent net ops world_at s m (st.pending h) last
          × (m ≤ length (st.pending h))
          × (session_has_data net ops last ≡ ok false)
    delivery_ends n out s' is_c e sent =
        let d = Sent-Delivered net ops st nl world_at s h e small sent in
        let (m, last, (all, (d', empty))) =
          finishes (length (st.pending h)) n out s' sent d (omega arith) in
        (
          m,
          last,
          all,
          d'.counted,
          rw empty at (
              session_has_data-pending net ops st nl last d'.handler (d'.same_kind ∙ is_c)
                d'.holds),
        )
