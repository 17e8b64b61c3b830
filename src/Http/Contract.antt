-- ===== src/Http/Contract.antt =====
-- The HTTP handler keeps the contract that the server relies on.
use mod_server.Prelude.Memory.{memory}
use mod_server.Prelude.{
  ℕ, ◌≤◌, ◌<◌, ◌≡◌, ◌↔◌, refl, none, [], ◌∷◌, arith, Bytes, length, length-append, length-set,
  length-drop, ap, ◌^◌,
}
use mod_server.Prelude.Int.{pos}
use mod_server.Prelude.Fault.{ok, ◌>>=◌}
use mod_server.PluginApi.DataChunk.{DataChunk, new_chunk, m_buf_size}
use mod_server.PluginApi.Handler.{ProtocolHandler, HandlerLaws}
use mod_server.Http.Handler
use mod_server.Http.Handler.{Env, HttpHandler, page, respond}
use mod_server.Http.Handler.Answers.{did_receive_answers}
use mod_server.Http.Handler.Sending.{pending, response, respond-head, did_send-pending}

-- The handler as the server sees it, in a world that stays as it is, with new chunks in memory `raw`.
abbrev pub http_ops : Env → Bytes → ProtocolHandler HttpHandler
http_ops env raw = record {
  has_data_to_send = Handler.has_data_to_send;
  did_receive = λ h c n. (do (h', lines) ← Handler.did_receive env h c n; ok h');
  did_send = Handler.did_send;
  data_to_send = Handler.data_to_send;
  data_to_send_size = Handler.data_to_send_size;
  allocate_chunk = λ h. Handler.allocate_chunk raw;
  discard_chunk = λ h c. h;
}

-- A handler that holds no request and has no more to send than `Send` can be told.
abbrev IsIdle : HttpHandler → Type 0
IsIdle h = (h.m_request ≡ none) × (length (pending h) < 2 ^ 31)

module _ (env : Env) (raw : Bytes) (size_ok : length raw ≡ m_buf_size) where
  pub http_allocates : (h : HttpHandler) → length (Handler.allocate_chunk raw).m_buffer ≡ m_buf_size
  unfolding Handler.allocate_chunk new_chunk
  http_allocates h = omega (arith, length-set raw 0 0, size_ok)

module _ (env : Env) (raw : Bytes) (size_ok : length raw ≡ m_buf_size)
    (page_fits : length (response (page env)) < 2 ^ 31) where
  http_receives :
      (h : HttpHandler) (c : DataChunk) (n : ℕ)
      → IsIdle h
      → 0 < n
      → n ≤ length c.m_buffer
      → (h' : HttpHandler) × ((http_ops env raw).did_receive h c (pos n) ≡ ok h') × IsIdle h'
  http_receives h c n (idle, _) positive fits =
      let (lines, e) = did_receive_answers env h c n idle positive fits in
      let same = respond-head h.m_response (page env) in
      (
        record { m_request = none; m_response = respond h.m_response (page env) },
        rw e,
        (refl, omega (arith, page_fits, ap length same)),
      )

  http_sends :
      (h : HttpHandler) (k : ℕ)
      → IsIdle h
      → 0 < k
      → k ≤ Handler.data_to_send_size h
      → (h' : HttpHandler) × (Handler.did_send h (pos k) ≡ ok h') × IsIdle h'
  unfolding Handler.data_to_send_size
  http_sends h k (idle, short) positive fits = (
    _,
    did_send-pending h k positive fits,
    (idle, omega (arith, short, length-drop k (pending h))),
  )

  http_fits : (h : HttpHandler) → IsIdle h → Handler.data_to_send_size h < 2 ^ 31
  unfolding Handler.data_to_send_size
  http_fits h (idle, short) = short

  http_shows :
      (h : HttpHandler) → Handler.data_to_send_size h ≤ length (memory (Handler.data_to_send h))
  unfolding Handler.data_to_send_size Handler.data_to_send
  http_shows h = ground (arith, length-append h.m_response.m_data (0 ∷ []))

  -- Whatever the files hold, as long as the response around the page has less than 2^31 bytes, and in
  -- chunks of full size, the HTTP handler keeps the contract, where it is ready exactly while it holds no
  -- request and has less than 2^31 bytes to send, as a new handler does.
  pub http-IsReady :
      (laws : HandlerLaws (http_ops env raw)) × laws.IsReady Handler.new_handler
      × ((h : HttpHandler)
          → laws.IsReady h ↔ ((h.m_request ≡ none) × (length (pending h) < 2 ^ 31)))
  http-IsReady = (
    record {
      IsReady = IsIdle;
      allocates = http_allocates env raw size_ok;
      receives = http_receives;
      sends = http_sends;
      shows = http_shows;
      fits = http_fits;
      discards = λ h c idle. idle;
    },
    (refl, omega arith),
    λ h. (λ e. e, λ e. e),
  )
