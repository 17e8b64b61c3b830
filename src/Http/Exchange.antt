-- ===== src/Http/Exchange.antt =====
-- From a received chunk to the response on the wire: `ConnectionSession` (tcp_session.cpp) with the HTTP
-- handler.
use mathlib.Core.Path.{subst}
use mod_server.Prelude.Memory.{write_at-overlay}
use mod_server.Prelude.{
  ℕ, suc, ◌<◌, ◌≡◌, ◌≢◌, refl, true, false, some, none, [], ◌++◌, ap, ◌^◌, arith, Bytes, length,
  lt→ltb,
}
use mod_server.Prelude.Int.{ℤ, pos, negsuc}
use mod_server.Prelude.Fault.{ok}
use mod_server.Prelude.Text.{codes}
use mod_server.Prelude.Decimal
use mod_server.PluginApi.DataChunk.{DataChunk, m_buf_size}
use mod_server.Socket.Net.{Net, NetLaws}
use mod_server.Socket.TcpSocket.{receive}
use mod_server.Server.Session.{
  connection, Session, can_read, session_has_data, took_bytes, after_receive, connection_on_read,
}
use mod_server.Server.Delivery.{Sent, none_yet}
use mod_server.Server.Delivery.Ends.{delivery_ends}
use mod_server.Server.Delivery.Keeps.{Lasts, Same, Sent-Same}
use mod_server.Http.Handler.{Env, HttpHandler, page, respond}
use mod_server.Http.Handler
use mod_server.Http.Handler.Answers.{did_receive_answers}
use mod_server.Http.Handler.Sending.{head, response, respond-head}
use mod_server.Http.Contract.{http_ops, http_allocates}
use mod_server.Http.Stream.{http_stream}

module _ {W : Type 0} (net : Net W) (env : Env) (raw : Bytes) where
  -- The handler that has the whole response to send.
  abbrev answered : HttpHandler → HttpHandler
  answered h = record { m_request = none; m_response = respond h.m_response (page env) }

  took_bytes-answered :
      (h : HttpHandler) (chunk : DataChunk) (text : Bytes) (n : ℕ)
      → h.m_request ≡ none
      → length text ≡ n
      → 0 < n
      → n < length chunk.m_buffer
      → took_bytes net (http_ops env raw) h chunk text n ≡ ok (answered h)
  unfolding took_bytes
  took_bytes-answered h chunk text n idle len positive room =
      let (buf, written, full) = write_at-overlay text chunk.m_buffer n len room in
      let (lines, e) =
        did_receive_answers env h (record { m_buffer = buf }) n idle positive (omega arith) in
      rw (written, e)

  after_receive-took_bytes :
      (h h' : HttpHandler) (chunk : DataChunk) (res : ℤ × Bytes) (n : ℕ)
      → res.0 ≡ pos n
      → 0 < n
      → took_bytes net (http_ops env raw) h chunk res.1 n ≡ ok h'
      → after_receive net (http_ops env raw) h chunk res ≡ ok h'
  unfolding after_receive
  after_receive-took_bytes h h' chunk (pos m, text) n got positive took =
      let same : m ≡ n = cc in rw (same, lt→ltb 0 n positive) took
  after_receive-took_bytes h h' chunk (negsuc m, text) n got positive took = absurd (cc)

  can_read_idle :
      (s : Session HttpHandler)
      → session_has_data net (http_ops env raw) s ≡ ok false
      → can_read net (http_ops env raw) s ≡ ok true
  unfolding can_read session_has_data
  can_read_idle s h = ground (arith, h)

  module _ (nl : NetLaws net) (size_ok : length raw ≡ m_buf_size) where
    read-answered :
        (s : Session HttpHandler) (h : HttpHandler) (n : ℕ) (w : W)
        → s.m_proto_handler ≡ some h
        → h.m_request ≡ none
        → (net.sys_recv s.m_sock.m_socket m_buf_size w).0.0 ≡ pos n
        → 0 < n
        → n < m_buf_size
        → (err : ℤ) × (w' : W) × (connection_on_read net (http_ops env raw) s w
            ≡ ok (pos n, err, record s { m_proto_handler = some (answered h) }, w'))
    unfolding connection_on_read receive
    read-answered s h n w is_h idle got positive room =
        let res = net.sys_recv s.m_sock.m_socket m_buf_size w in
        let (le, len) = nl.recv_bounded s.m_sock.m_socket m_buf_size n w got in
        let took =
          after_receive-took_bytes h (answered h) (Handler.allocate_chunk raw) res.0 n got positive
            (took_bytes-answered h (Handler.allocate_chunk raw) res.0.1 n idle len positive
              (omega (arith, http_allocates env raw size_ok h))) in
        (net.errno res.1, res.1, rw (is_h, took, got))

    did_send-idle : Lasts net (http_ops env raw) (λ h. h.m_request ≡ none)
    unfolding Handler.did_send
    did_send-idle h h' rc idle e = ground (arith, idle, e)

    -- An exchange, with what it leaves for the next one.
    pub record Exchanged (s : Session HttpHandler) (n : ℕ) (w : W) (world_at : ℕ → W) : Type 0 where
      pub err : ℤ
      pub after : Session HttpHandler
      pub world : W
      pub count : ℕ
      pub last : Session HttpHandler
      pub reads : connection_on_read net (http_ops env raw) s w ≡ ok (pos n, err, after, world)
      pub sends : Sent net (http_ops env raw) world_at after count (response (page env)) last
      pub can_read_on : can_read net (http_ops env raw) last ≡ ok true
      pub still : Same net (http_ops env raw) (λ h. h.m_request ≡ none) s last

    module _ (s : Session HttpHandler)
        (takes : (text : Bytes) (v : W)
          → text ≢ []
          → (k : ℕ) × ((net.sys_send s.m_sock.m_socket text v).0 ≡ pos (suc k)))
        (page_fits : length (response (page env)) < 2 ^ 31) where
      pub exchanged :
          (h : HttpHandler) (n : ℕ) (w : W) (world_at : ℕ → W)
          → s.kind ≡ connection
          → s.m_proto_handler ≡ some h
          → h.m_request ≡ none
          → (net.sys_recv s.m_sock.m_socket m_buf_size w).0.0 ≡ pos n
          → 0 < n
          → n < m_buf_size
          → Exchanged s n w world_at
      exchanged h n w world_at is_c is_h idle got positive room =
          let (err, w', reads) = read-answered s h n w is_h idle got positive room in
          let s' : Session HttpHandler = record s { m_proto_handler = some (answered h) } in
          let (m, last, sends, few, done) =
            delivery_ends net (http_ops env raw) (http_stream env raw) nl s' takes world_at
              (answered h)
              (omega (arith, page_fits, ap length (respond-head h.m_response (page env)))) 0 [] s'
              is_c refl none_yet in
          let same =
            Sent-Same net (http_ops env raw) (λ h. h.m_request ≡ none) did_send-idle world_at s'
              (answered h) refl refl sends in
          record {
            err = err;
            after = s';
            world = w';
            count = m;
            last = last;
            reads = reads;
            sends =
                subst (λ (text : Bytes). Sent net (http_ops env raw) world_at s' m text last)
                  (respond-head h.m_response (page env)) sends;
            can_read_on = can_read_idle last done;
            still = record {
              handler = same.handler;
              holds = same.holds;
              lasting = same.lasting;
              same_socket = same.same_socket;
              same_kind = same.same_kind;
            };
          }

    -- A connection whose HTTP handler holds no request and that receives a chunk that leaves room for
    -- the NUL, where the response around the page has less than 2^31 bytes and the system takes at least
    -- one byte of every text that is sent on the connection's socket. Some number of further writes,
    -- whatever worlds they find, passes exactly that response to the system on that socket, which
    -- announces the page's length, and then the session can read again.
    pub exchange :
        (s : Session HttpHandler) (h : HttpHandler) (n : ℕ) (w : W) (world_at : ℕ → W)
        → ((text : Bytes) (v : W)
            → text ≢ []
            → (k : ℕ) × ((net.sys_send s.m_sock.m_socket text v).0 ≡ pos (suc k)))
        → length (response (page env)) < 2 ^ 31
        → s.kind ≡ connection
        → s.m_proto_handler ≡ some h
        → h.m_request ≡ none
        → (net.sys_recv s.m_sock.m_socket m_buf_size w).0.0 ≡ pos n
        → 0 < n
        → n < m_buf_size
        → (err : ℤ) × (s' : Session HttpHandler) × (w' : W) × (digits : Bytes) × (m : ℕ)
          × (last : Session HttpHandler) × (connection_on_read net (http_ops env raw) s w
              ≡ ok (pos n, err, s', w'))
          × (Decimal.value 0 digits ≡ length (page env))
          × Sent net
              (http_ops env raw)
              world_at
              s'
              m
              (head digits ++ (page env ++ codes "\r\n\r\n"))
              last
          × (can_read net (http_ops env raw) last ≡ ok true)
    exchange s h n w world_at takes page_fits is_c is_h idle got positive room =
        let x = exchanged s takes page_fits h n w world_at is_c is_h idle got positive room in
        (
          x.err,
          x.after,
          x.world,
          Decimal.to_string (length (page env)),
          x.count,
          x.last,
          x.reads,
          Decimal.value-to_string (length (page env)),
          x.sends,
          x.can_read_on,
        )
