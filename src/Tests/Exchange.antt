-- ===== src/Tests/Exchange.antt =====
-- A request and its response at a concrete system.
use mod_server.Prelude.{
  ℕ, zero, suc, ◌≤◌, ◌≡◌, ◌≢◌, refl, true, false, not, some, [], ◌∷◌, ◌++◌, arith, Bytes, length,
  is_empty, ltb→lt, ◌<◌, ◌^◌,
}
use mod_server.Prelude.Int.{ℤ, pos}
use mod_server.Prelude.Fault.{ok}
use mod_server.Prelude.Text.{codes}
use mod_server.Prelude.Decimal
use mod_server.Prelude.Memory.{read_bytes}
use mod_server.Http.Response
use mod_server.Http.Handler
use mod_server.Socket.TcpSocket.{send}
use mod_server.Http.Handler.{Env, HttpHandler, new_handler, page}
use mod_server.Http.Handler.Sending.{head, response}
use mod_server.Http.Stream.{http_stream}
use mod_server.Http.Exchange.{exchange}
use mod_server.Http.Conversation.{Conversation, responses, conversation}
use mod_server.Server.Session.{
  Session, session_has_data, can_read, connection_on_read, connection_on_write, after_send,
  send_size,
}
use mod_server.Server.Delivery.{Sent, none_yet, sent_more, delivers}
use mod_server.Server.Delivery.Ends.{delivery_ends}
use mod_server.Tests.System.{quiet, quiet-laws, ops, talker, site_of_hi, chunk_memory, hi_fits}

quiet_takes :
    (text : Bytes) (w : ℕ) → text ≢ [] → (k : ℕ) × ((quiet.sys_send (pos 4) text w).0 ≡ pos (suc k))
quiet_takes [] w some_left = absurd (some_left refl)
quiet_takes (c ∷ text) w some_left = (length text, refl)

exchange_example :
    (err : ℤ) × (s' : Session HttpHandler) × (w' : ℕ) × (digits : Bytes) × (m : ℕ) × (last : Session
      HttpHandler)
    × (connection_on_read quiet ops talker 5 ≡ ok (pos 14, err, s', w'))
    × (Decimal.value 0 digits ≡ length (page site_of_hi))
    × Sent quiet ops (λ n. n) s' m (head digits ++ (page site_of_hi ++ codes "\r\n\r\n")) last
    × (can_read quiet ops last ≡ ok true)
exchange_example =
    exchange quiet site_of_hi chunk_memory quiet-laws refl talker new_handler 14 5 (λ n. n)
      quiet_takes hi_fits refl refl refl refl (omega arith) (ltb→lt 14 2048 refl)

-- A second page, which stands there from the second request on.
abbrev site_of_ho : Env
site_of_ho = record site_of_hi { index_html = some (codes "ho!") }

abbrev pages : ℕ → Env
pages zero = site_of_hi
pages (suc n) = site_of_ho

pages_fit : (n : ℕ) → length (response (page (pages n))) < 2 ^ 31
unfolding page Decimal.to_string
pages_fit zero = hi_fits
pages_fit (suc n) = ltb→lt _ (2 ^ 31) refl

conversation_example :
    (last : Session HttpHandler) × Conversation quiet chunk_memory pages
      (λ n. 5)
      (λ n m. m)
      talker
      3
      (responses quiet chunk_memory pages (λ n. 5) (λ n m. m) 3)
      last
conversation_example =
    conversation quiet chunk_memory pages (λ n. 5) (λ n m. m) quiet-laws refl talker new_handler
      quiet_takes pages_fit (λ n. (13, refl, ltb→lt 14 2048 refl)) refl refl refl 3

-- A connection whose handler has five bytes to send.
abbrev busy : HttpHandler
busy = record new_handler { m_response = record { m_data = codes "hello" } }

abbrev sender : Session HttpHandler
sender = record talker { m_proto_handler = some busy }

abbrev sent_all : Session HttpHandler
sent_all = record talker { m_proto_handler = some new_handler }

one_send : Sent quiet ops (λ n. n) sender 1 (codes "hello") sent_all
unfolding connection_on_write after_send send Handler.data_to_send Handler.data_to_send_size
    Handler.did_send Response.clear read_bytes send_size
one_send = sent_more 4 (pos 0) 0 (codes "hello") none_yet refl

delivers_example :
    (rest : Bytes) × (codes "hello" ++ rest ≡ codes "hello")
    × (1 ≤ 5)
    × (session_has_data quiet ops sent_all ≡ ok (not (is_empty rest)))
delivers_example =
    delivers quiet ops (http_stream site_of_hi chunk_memory) quiet-laws (λ n. n) sender busy 1
      (codes "hello") sent_all refl refl (ltb→lt 5 (2 ^ 31) refl) one_send

delivery_ends_example :
    (m : ℕ) × (last : Session HttpHandler) × Sent quiet ops (λ n. n) sender m (codes "hello") last
    × (m ≤ 5)
    × (session_has_data quiet ops last ≡ ok false)
delivery_ends_example =
    delivery_ends quiet ops (http_stream site_of_hi chunk_memory) quiet-laws sender quiet_takes
      (λ n. n) busy (ltb→lt 5 (2 ^ 31) refl) 0 [] sender refl refl none_yet
