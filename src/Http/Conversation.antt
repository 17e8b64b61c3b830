-- ===== src/Http/Conversation.antt =====
-- A connection that is kept alive: one request after the other (ConnectionSession of tcp_session.cpp with
-- the HTTP handler).
use mod_server.Prelude.{
  ℕ, zero, suc, ◌<◌, ◌≡◌, ◌≢◌, refl, ap, ◌∙◌, true, some, none, [], ◌++◌, arith, Bytes, length, ◌^◌,
}
use mod_server.Prelude.Int.{ℤ, pos}
use mod_server.Prelude.Fault.{ok}
use mod_server.PluginApi.DataChunk.{m_buf_size}
use mod_server.Socket.Net.{Net, NetLaws}
use mod_server.Socket.TcpSocket.{Socket}
use mod_server.Server.Session.{connection, Session, can_read, connection_on_read}
use mod_server.Server.Delivery.{Sent}
use mod_server.Http.Handler.{Env, HttpHandler, page}
use mod_server.Http.Contract.{http_ops}
use mod_server.Http.Handler.Sending.{response}
use mod_server.Http.Exchange.{exchanged}

module _ {W : Type 0} (net : Net W) (raw : Bytes) (env_at : ℕ → Env) (read_at : ℕ → W)
    (write_at : ℕ → ℕ → W) where
  -- What a connection has done: so many reads, each followed by the writes that sent some text, after
  -- which the session could read again. The files of exchange number n are those of `env_at n`, its
  -- read finds the world `read_at n`, and its writes find `write_at n 0`, `write_at n 1`, and so on.
  pub data Conversation (s : Session HttpHandler) : ℕ → Bytes → Session HttpHandler → Type 0 where
    silent : Conversation s 0 [] s
    one_more :
        {n : ℕ} {out : Bytes} {t : Session HttpHandler} (k m : ℕ) (err : ℤ) (w' : W) (text : Bytes)
        (t' last : Session HttpHandler)
        → Conversation s n out t
        → connection_on_read net (http_ops (env_at n) raw) t (read_at n)
          ≡ ok (pos (suc k), err, t', w')
        → Sent net (http_ops (env_at n) raw) (write_at n) t' m text last
        → can_read net (http_ops (env_at n) raw) last ≡ ok true
        → Conversation s (suc n) (out ++ text) last

  -- The responses to the first requests.
  abbrev pub responses : ℕ → Bytes
  responses zero = []
  responses (suc n) = responses n ++ response (page (env_at n))

  module _ (nl : NetLaws net) (size_ok : length raw ≡ m_buf_size) (s : Session HttpHandler)
      (h : HttpHandler)
      (takes : (text : Bytes) (v : W)
        → text ≢ []
        → (k : ℕ) × ((net.sys_send s.m_sock.m_socket text v).0 ≡ pos (suc k)))
      (pages_fit : (n : ℕ) → length (response (page (env_at n))) < 2 ^ 31)
      (receives : (n : ℕ)
        → (k : ℕ) × ((net.sys_recv s.m_sock.m_socket m_buf_size (read_at n)).0.0 ≡ pos (suc k))
          × (suc k < m_buf_size)) where
    -- So far all was answered.
    record Kept (n : ℕ) : Type 0 where
      pub last : Session HttpHandler
      pub talked : Conversation s n (responses n) last
      pub handler : HttpHandler
      pub holds : last.m_proto_handler ≡ some handler
      pub idle : handler.m_request ≡ none
      pub same_socket : last.m_sock ≡ s.m_sock
      pub is_connection : last.kind ≡ connection

    talks : (n : ℕ) → s.kind ≡ connection → s.m_proto_handler ≡ some h → h.m_request ≡ none → Kept n
    talks zero is_c is_h idle = record {
      last = s;
      talked = silent;
      handler = h;
      holds = is_h;
      idle = idle;
      same_socket = refl;
      is_connection = is_c;
    }
    talks (suc n) is_c is_h idle =
        let so_far = talks n is_c is_h idle in
        let (k, got, room) = receives n in
        let x =
          exchanged net (env_at n) raw nl size_ok so_far.last
            (λ text v some_left. rw so_far.same_socket (takes text v some_left)) (pages_fit n)
            so_far.handler (suc k) (read_at n) (write_at n) so_far.is_connection so_far.holds
            so_far.idle
            (ap (λ (sock : Socket). (net.sys_recv sock.m_socket m_buf_size (read_at n)).0.0)
                so_far.same_socket
              ∙ got)
            (omega arith) room in
        record {
          last = x.last;
          talked =
              one_more k x.count x.err x.world (response (page (env_at n))) x.after x.last
                so_far.talked x.reads x.sends x.can_read_on;
          handler = x.still.handler;
          holds = x.still.holds;
          idle = x.still.lasting;
          same_socket = x.still.same_socket ∙ so_far.same_socket;
          is_connection = x.still.same_kind ∙ so_far.is_connection;
        }

    -- A connection whose HTTP handler holds no request, where every read finds a chunk that leaves room
    -- for the NUL, every response has less than 2^31 bytes, and the system takes at least one byte of
    -- every text that is sent on the connection's socket. However many
    -- requests come, whatever the worlds that the calls find and however the files change from one
    -- request to the next: each is answered before the next is read, what the system took on that socket
    -- is exactly the responses around the pages of their times, in their order, and after each the session can read
    -- again.
    pub conversation :
        s.kind ≡ connection
        → s.m_proto_handler ≡ some h
        → h.m_request ≡ none
        → (n : ℕ) → (last : Session HttpHandler) × Conversation s n (responses n) last
    conversation is_c is_h idle n = let kept = talks n is_c is_h idle in (kept.last, kept.talked)
