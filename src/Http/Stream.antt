-- ===== src/Http/Stream.antt =====
-- The HTTP handler shows its response as a queue of bytes.
use mod_server.Prelude.Memory.{memory, read_bytes, read_bytes-take}
use mod_server.Prelude.{
  ℕ, ◌≤◌, ◌<◌, ◌≡◌, refl, not, if◌then◌else◌, is_empty, none, some, [], ◌∷◌, ◌++◌, arith, Bytes,
  length, drop, length-append, take_append,
}
use mod_server.Prelude.Int.{pos}
use mod_server.Prelude.Fault.{ok}
use mod_server.PluginApi.Handler.{StreamLaws}
use mod_server.Http.Handler
use mod_server.Http.Handler.{Env, HttpHandler}
use mod_server.Http.Handler.Sending.{pending, did_send-pending}
use mod_server.Http.Contract.{http_ops}

shown : (text : Bytes) → read_bytes (length text) (text ++ 0 ∷ []) ≡ ok text
shown text =
    rw
      (
        read_bytes-take (length text) (text ++ 0 ∷ []) (omega (arith, length-append text (0 ∷ []))),
        take_append text (0 ∷ []),
      )
      refl

read_shown :
    (text : Bytes)
    → read_bytes
        (length text)
        (memory (if not (is_empty text) then some (text ++ 0 ∷ []) else none))
      ≡ ok text
unfolding read_bytes
read_shown [] = refl
read_shown (c ∷ text) = shown (c ∷ text)

pub http_shows_is :
    (h : HttpHandler)
    → read_bytes (Handler.data_to_send_size h) (memory (Handler.data_to_send h)) ≡ ok (pending h)
unfolding Handler.data_to_send_size Handler.data_to_send
http_shows_is h = read_shown (pending h)

pub http_sends_is :
    (h : HttpHandler) (k : ℕ)
    → 0 < k
    → k ≤ length (pending h)
    → (h' : HttpHandler) × (Handler.did_send h (pos k) ≡ ok h') × (pending h' ≡ drop k (pending h))
http_sends_is h k positive fits = (_, did_send-pending h k positive fits, refl)

pub http_busy_is : (h : HttpHandler) → Handler.has_data_to_send h ≡ not (is_empty (pending h))
unfolding Handler.has_data_to_send
http_busy_is h = refl

pub http_size_is : (h : HttpHandler) → Handler.data_to_send_size h ≡ length (pending h)
unfolding Handler.data_to_send_size
http_size_is h = refl

abbrev pub http_stream : (env : Env) (raw : Bytes) → StreamLaws (http_ops env raw)
http_stream env raw = record {
  pending = pending;
  busy_is = http_busy_is;
  size_is = http_size_is;
  shows_is = http_shows_is;
  sends_is = http_sends_is;
}
