-- ===== src/Server/Delivery.antt =====
-- How a connection sends what its handler has for it (ConnectionSession::OnWrite of tcp_session.cpp), over
-- any number of calls, whatever happens in the system between them.
pub mod Ends
pub mod Keeps
use mod_server.Prelude.{
  ℕ, zero, suc, ◌+◌, ◌≤◌, ◌<◌, ◌≡◌, ◌≢◌, ◌⊎◌, inl, inr, refl, sym, ap, ◌∙◌, Bool, true, false, not,
  Option, none, some, List, [], ◌∷◌, ◌++◌, append_assoc, append-nil, arith, Bytes, length, take,
  drop, is_empty, take-append-drop, length-append, length-take, length-drop, lt→ltb, drop_all, ◌^◌,
}
use mod_server.Prelude.Int.{ℤ, pos, negsuc}
use mod_server.Prelude.Fault.{Result, ok, ◌>>=◌}
use mod_server.PluginApi.Handler.{ProtocolHandler, StreamLaws}
use mod_server.Socket.Net.{Net, NetLaws}
use mod_server.Socket.TcpSocket.{send}
use mod_server.Server.Session.{
  connection, Session, session_has_data, after_send, connection_on_write, send_size, send_size-fits,
}

-- What was sent so far: on which descriptor, and the bytes of it that the system took.
abbrev pub Wire : Type 0
Wire = List (ℤ × Bytes)

abbrev pub taken_of : ℤ → Bytes → Bytes
taken_of (pos n) text = take n text
taken_of (negsuc n) text = []

-- The system with a record of what is passed to `send` and taken, in a world that holds the record. All
-- else is as it was.
abbrev pub recorded : {W : Type 0} → Net W → Net (W × Wire)
recorded net = record {
  sys_socket = λ d t p (w, wire). (let (rc, w') = net.sys_socket d t p w in (rc, (w', wire)));
  sys_close = λ fd (w, wire). (let (rc, w') = net.sys_close fd w in (rc, (w', wire)));
  sys_shutdown = λ fd how (w, wire). (let (rc, w') = net.sys_shutdown fd how w in (rc, (w', wire)));
  sys_bind = λ fd a (w, wire). (let (rc, w') = net.sys_bind fd a w in (rc, (w', wire)));
  sys_listen =
      λ fd backlog (w, wire). (let (rc, w') = net.sys_listen fd backlog w in (rc, (w', wire)));
  sys_accept = λ fd (w, wire). (let (rc, w') = net.sys_accept fd w in (rc, (w', wire)));
  sys_send = λ fd text (w, wire).
      (let (rc, w') = net.sys_send fd text w in (rc, (w', wire ++ (fd, taken_of rc text) ∷ [])));
  sys_recv = λ fd size (w, wire). (let (rc, w') = net.sys_recv fd size w in (rc, (w', wire)));
  errno = λ (w, wire). net.errno w;
  htons = net.htons;
  inet_addr = net.inet_addr;
}

module _ {W H : Type 0} (net : Net W) (ops : ProtocolHandler H) where
  -- So many calls of `OnWrite` that sent something, the bytes that the system took from what they passed
  -- to `send` on the socket of the session, in their order, and the session after them. What went on in
  -- the system before call number n is part of the world that the call finds, `world_at n`.
  pub data Sent (world_at : ℕ → W) (s : Session H) : ℕ → Bytes → Session H → Type 0 where
    none_yet : Sent world_at s 0 [] s
    sent_more :
        {n : ℕ} {out : Bytes} {t t' : Session H} (k : ℕ) (err : ℤ) (w' : W) (bytes : Bytes)
        → Sent world_at s n out t
        → connection_on_write (recorded net) ops t (world_at n, [])
          ≡ ok (pos (suc k), err, t', (w', (s.m_sock.m_socket, bytes) ∷ []))
        → Sent world_at s (suc n) (out ++ bytes) t'

module _ {W H : Type 0} (net : Net W) (ops : ProtocolHandler H) (st : StreamLaws ops) where
  module _ (nl : NetLaws net) where
    -- What a call does: the session keeps its kind, and what was taken is off the front of its queue.
    pub record Wrote (h : H) (s s' : Session H) (rc : ℤ) : Type 0 where
      pub handler : H
      pub holds : s'.m_proto_handler ≡ some handler
      pub same_kind : s'.kind ≡ s.kind
      pub same_socket : s'.m_sock ≡ s.m_sock
      pub in_queue : (k : ℕ) → rc ≡ pos k → k ≤ length (st.pending h)
      pub taken : (k : ℕ) → rc ≡ pos (suc k) → st.pending handler ≡ drop (suc k) (st.pending h)

    -- A handler that takes the report of a send.
    after_send-queue :
        (h : H) (rc : ℤ)
        → ((k : ℕ) → rc ≡ pos k → k ≤ length (st.pending h))
        → (h' : H) × (after_send (recorded net) ops h rc ≡ ok h')
          × ((k : ℕ) → rc ≡ pos (suc k) → st.pending h' ≡ drop (suc k) (st.pending h))
    unfolding after_send
    after_send-queue h (pos zero) small = (h, refl, λ k e. absurd (cc))
    after_send-queue h (pos (suc n)) small =
        let sent = st.sends_is h (suc n) (omega arith) (small (suc n) refl) in
        let one = lt→ltb 0 (suc n) (omega arith) in
        (sent.0, rw one sent.1, λ k e. let same : suc n ≡ suc k = cc in rw (sym same) sent.2)
    after_send-queue h (negsuc n) small = (h, refl, λ k e. absurd (cc))

    -- A call passes the whole queue to `send` on the socket of the session.
    pub connection_on_write-Wrote :
        (s : Session H) (w : W) (h : H)
        → s.m_proto_handler ≡ some h
        → length (st.pending h) < 2 ^ 31
        → let got = net.sys_send s.m_sock.m_socket (st.pending h) w in
          (err : ℤ) × (s' : Session H) × (connection_on_write (recorded net) ops s (w, [])
            ≡ ok (got.0, err, s', (got.1, (s.m_sock.m_socket, taken_of got.0 (st.pending h)) ∷ [])))
          × Wrote h s s' got.0
    unfolding connection_on_write send
    connection_on_write-Wrote s w h e fits =
        let res = net.sys_send s.m_sock.m_socket (st.pending h) w in
        let small : (k : ℕ) → res.0 ≡ pos k → k ≤ length (st.pending h) =
          λ k same. nl.send_bounded s.m_sock.m_socket (st.pending h) k w same in
        let after = after_send-queue h res.0 small in
        let is_size : ops.data_to_send_size h ≡ length (st.pending h) = st.size_is h in
        let narrow : send_size (ops.data_to_send_size h) ≡ ops.data_to_send_size h =
          send_size-fits (ops.data_to_send_size h) (rw is_size fits) in
        (
          net.errno res.1,
          record s { m_proto_handler = some after.0 },
          rw (e, narrow, st.shows_is h, after.1) refl,
          record {
            handler = after.0;
            holds = refl;
            same_kind = refl;
            same_socket = refl;
            in_queue = small;
            taken = after.2;
          },
        )

    -- After any such calls: what was sent and what is still in the queue are what was in the queue.
    pub record Delivered (h : H) (s : Session H) (n : ℕ) (out : Bytes) (s' : Session H)
        : Type 0 where
      pub handler : H
      pub holds : s'.m_proto_handler ≡ some handler
      pub same_kind : s'.kind ≡ s.kind
      pub same_socket : s'.m_sock ≡ s.m_sock
      pub all_there : out ++ st.pending handler ≡ st.pending h
      pub counted : n ≤ length out

    pub Wrote-Delivered :
        (h : H) (s : Session H) (n : ℕ) (out : Bytes) (t t' : Session H) (k : ℕ)
        (d : Delivered h s n out t)
        → Wrote d.handler t t' (pos (suc k))
        → Delivered h s (suc n) (out ++ take (suc k) (st.pending d.handler)) t'
    Wrote-Delivered h s n out t t' k d wrote =
        let left = st.pending d.handler in
        record {
          handler = wrote.handler;
          holds = wrote.holds;
          same_kind = wrote.same_kind ∙ d.same_kind;
          same_socket = wrote.same_socket ∙ d.same_socket;
          all_there =
              rw (wrote.taken k refl, append_assoc out, take-append-drop (suc k) left) d.all_there;
          counted = omega (
            arith,
            d.counted,
            wrote.in_queue (suc k) refl,
            length-append out (take (suc k) left),
            length-take (suc k) left,
          );
        }

    -- No more is left than there was.
    pub Delivered-fits :
        (h : H) (s : Session H) (n : ℕ) (out : Bytes) (t : Session H)
        → length (st.pending h) < 2 ^ 31
        → (d : Delivered h s n out t) → length (st.pending d.handler) < 2 ^ 31
    Delivered-fits h s n out t fits d =
        omega (arith, fits, length-append out (st.pending d.handler), ap length d.all_there)

    pub Sent-Delivered :
        (world_at : ℕ → W) (s : Session H) (h : H) {n : ℕ} {out : Bytes} {s' : Session H}
        → s.m_proto_handler ≡ some h
        → length (st.pending h) < 2 ^ 31
        → Sent net ops world_at s n out s'
        → Delivered h s n out s'
    Sent-Delivered world_at s h e fits none_yet = record {
      handler = h;
      holds = e;
      same_kind = refl;
      same_socket = refl;
      all_there = refl;
      counted = omega arith;
    }
    Sent-Delivered world_at s h e fits (sent_more {n} {out} {t} {t'} k err w' bytes before now) =
        let d = Sent-Delivered world_at s h e fits before in
        let left = st.pending d.handler in
        let (err', t2, same, wrote) =
          connection_on_write-Wrote t (world_at n) d.handler d.holds
            (Delivered-fits h s n out t fits d) in
        let is_k : (net.sys_send t.m_sock.m_socket left (world_at n)).0 ≡ pos (suc k) = cc in
        let is_t : t2 ≡ t' = cc in
        let are_bytes : taken_of (net.sys_send t.m_sock.m_socket left (world_at n)).0 left ≡ bytes =
          cc in
        let is_front : take (suc k) left ≡ bytes = rw is_k at are_bytes in
        rw (← is_front) (Wrote-Delivered h s n out t t' k d (rw (is_k, is_t) at wrote))

    pub session_has_data-pending :
        (s : Session H) (h : H)
        → s.kind ≡ connection
        → s.m_proto_handler ≡ some h
        → session_has_data net ops s ≡ ok (not (is_empty (st.pending h)))
    unfolding session_has_data
    session_has_data-pending s h is_c e = rw (is_c, e, st.busy_is h)

    -- However many calls have sent something, where the handler of the connection had less than 2^31 bytes
    -- to send: the bytes that they passed to `send` on its socket and that the system took, in their order,
    -- and a rest make up what the handler had to send, they were no more than that had bytes, and the session is
    -- busy exactly while the rest holds anything.
    pub delivers :
        (world_at : ℕ → W) (s : Session H) (h : H) (n : ℕ) (out : Bytes) (s' : Session H)
        → s.kind ≡ connection
        → s.m_proto_handler ≡ some h
        → length (st.pending h) < 2 ^ 31
        → Sent net ops world_at s n out s'
        → (rest : Bytes) × (out ++ rest ≡ st.pending h)
          × (n ≤ length (st.pending h))
          × (session_has_data net ops s' ≡ ok (not (is_empty rest)))
    delivers world_at s h n out s' is_c e fits sent =
        let d = Sent-Delivered world_at s h e fits sent in
        let rest = st.pending d.handler in
        (
          rest,
          d.all_there,
          omega (arith, d.counted, length-append out rest, ap length d.all_there),
          session_has_data-pending s' d.handler (d.same_kind ∙ is_c) d.holds,
        )
