-- ===== src/Server/Valid/Sessions.antt =====
-- What a read, a write and the end of one session do, where the server is valid.
use mod_server.Prelude.Memory.{memory, read_bytes-take, write_at-overlay}
use mod_server.Prelude.{
  ℕ, zero, suc, ◌≤◌, ◌<◌, ◌≡◌, ◌≢◌, refl, ap, ◌∙◌, true, some, List, arith, Bytes, length, take,
  length-take, ltb, ltb→lt, lt→ltb, inl, inr, Bool-cases,
}
use mod_server.Prelude.Int.{ℤ, pos, negsuc}
use mod_server.Prelude.Fault.{Result, ok}
use mod_server.PluginApi.DataChunk.{DataChunk, m_buf_size}
use mod_server.PluginApi.Handler.{ProtocolHandler, HandlerLaws}
use mod_server.Socket.Net.{Net, NetLaws, Use}
use mod_server.Socket.TcpSocket.{send, receive}
use mod_server.Server.Valid.{Supply}
use mod_server.Server.Session.{
  Session, after_send, took_bytes, after_receive, connection_on_read, connection_on_write,
  send_size-fits,
}

module _ {W H : Type 0} {net : Net W} {ops : ProtocolHandler H} (nl : NetLaws net)
    (hl : HandlerLaws ops) (sup : Supply nl) where
  -- The result is a ready handler.
  abbrev Readies : Result H → Type 0
  Readies r = (h : H) × (r ≡ ok h) × hl.IsReady h

  took_bytes-Readies :
      (h : H) (chunk : DataChunk) (text : Bytes) (n : ℕ)
      → hl.IsReady h
      → length text ≡ n
      → 0 < n
      → n < length chunk.m_buffer
      → Readies (took_bytes net ops h chunk text n)
  unfolding took_bytes
  took_bytes-Readies h chunk text n ready len positive room =
      let (buf, written, full) = write_at-overlay text chunk.m_buffer n len room in
      let (h', e, r) = hl.receives h (record { m_buffer = buf }) n ready positive (omega arith) in
      (h', rw (written, e), r)

  after_receive-Readies :
      (h : H) (chunk : DataChunk) (res : ℤ × Bytes)
      → hl.IsReady h
      → ((n : ℕ) → res.0 ≡ pos n → (length res.1 ≡ n) × (n < length chunk.m_buffer))
      → Readies (after_receive net ops h chunk res)
  unfolding after_receive
  after_receive-Readies h chunk (pos zero, text) ready fits =
      (ops.discard_chunk h chunk, refl, hl.discards h chunk ready)
  after_receive-Readies h chunk (pos (suc n), text) ready fits =
      let (len, room) = fits (suc n) refl in
      let positive : ltb 0 (suc n) ≡ true = lt→ltb 0 (suc n) (omega arith) in
      rw positive (took_bytes-Readies h chunk text (suc n) ready len (omega arith) room)
  after_receive-Readies h chunk (negsuc n, text) ready fits =
      (ops.discard_chunk h chunk, refl, hl.discards h chunk ready)

  -- What a call on a connection gives: the session on its socket, with a ready handler.
  pub record Serves (s : Session H) (w : W) (r : Result (ℤ × ℤ × Session H × W)) : Type 0 where
    pub rc : ℤ
    pub err : ℤ
    pub handler : H
    pub world : W
    pub returns : r ≡ ok (rc, err, record s { m_proto_handler = some handler }, world)
    pub ready : hl.IsReady handler
    pub carries : (u : Use) → nl.Has u w → nl.Has u world
    pub leaves : (fds : List ℕ) → sup.Accepts fds w → sup.Accepts fds world

  pub connection_on_read-Serves :
      (s : Session H) (w : W) (h : H)
      → s.m_proto_handler ≡ some h
      → hl.IsReady h
      → (net.sys_recv s.m_sock.m_socket m_buf_size w).0.0 ≢ pos m_buf_size
      → Serves s w (connection_on_read net ops s w)
  unfolding connection_on_read receive
  connection_on_read-Serves s w h is_h ready room =
      let got = net.sys_recv s.m_sock.m_socket m_buf_size w in
      let (h', e, r) = after_receive-Readies h (ops.allocate_chunk h) got.0 ready (λ n is_n.
        let (le, len) = nl.recv_bounded s.m_sock.m_socket m_buf_size n w is_n in
        (len, room_below n le is_n)) in
      record {
        rc = got.0.0;
        err = net.errno got.1;
        handler = h';
        world = got.1;
        returns = rw (is_h, e);
        ready = r;
        carries = nl.recv_keeps s.m_sock.m_socket m_buf_size w;
        leaves = λ fds. sup.recv_leaves s.m_sock.m_socket m_buf_size fds w;
      }
    where
      room_below :
          (n : ℕ)
          → n ≤ m_buf_size
          → (net.sys_recv s.m_sock.m_socket m_buf_size w).0.0 ≡ pos n
          → n < length (ops.allocate_chunk h).m_buffer
      room_below n le is_n = elim (Bool-cases (ltb n m_buf_size)) [
        | inl less ↦ omega (arith, ltb→lt n m_buf_size less, hl.allocates h)
        | inr full ↦
            let is_all : n ≡ m_buf_size = ground arith in absurd (room (is_n ∙ ap pos is_all))
      ]

  after_send-Readies :
      (h : H) (rc : ℤ)
      → hl.IsReady h
      → ((k : ℕ) → rc ≡ pos k → k ≤ ops.data_to_send_size h)
      → Readies (after_send net ops h rc)
  unfolding after_send
  after_send-Readies h (pos zero) ready le = (h, refl, ready)
  after_send-Readies h (pos (suc k)) ready le =
      let (h', e, r) = hl.sends h (suc k) ready (omega arith) (le (suc k) refl) in
      (h', ground (arith, e), r)
  after_send-Readies h (negsuc n) ready le = (h, refl, ready)

  pub connection_on_write-Serves :
      (s : Session H) (w : W) (h : H)
      → s.m_proto_handler ≡ some h
      → hl.IsReady h
      → Serves s w (connection_on_write net ops s w)
  unfolding connection_on_write send
  connection_on_write-Serves s w h is_h ready =
      let text : Bytes = take (ops.data_to_send_size h) (memory (ops.data_to_send h)) in
      let got = net.sys_send s.m_sock.m_socket text w in
      let (h', e, r) = after_send-Readies h got.0 ready (λ k is_k. omega (
        arith,
        nl.send_bounded s.m_sock.m_socket text k w is_k,
        length-take (ops.data_to_send_size h) (memory (ops.data_to_send h)),
      )) in
      record {
        rc = got.0;
        err = net.errno got.1;
        handler = h';
        world = got.1;
        returns = rw (
          is_h,
          send_size-fits (ops.data_to_send_size h) (hl.fits h ready),
          read_bytes-take (ops.data_to_send_size h) (memory (ops.data_to_send h)) (hl.shows h),
          e,
        );
        ready = r;
        carries = nl.send_keeps s.m_sock.m_socket text w;
        leaves = λ fds. sup.send_leaves s.m_sock.m_socket text fds w;
      }
