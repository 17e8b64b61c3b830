-- ===== src/Http/Handler/Sending.antt =====
-- What a handler has to send, and what is left of it.
use mod_server.Prelude.{
  ℕ, ◌+◌, ◌≤◌, ◌<◌, ◌≡◌, refl, ◌++◌, append_assoc, arith, Bytes, length, length-append, drop,
  drop_all,
}
use mod_server.Prelude.Int.{ℤ, pos, negsuc, ◌≤ℤ◌}
use mod_server.Prelude.Fault.{ok, fault, failed_assert}
use mod_server.Prelude.Text.{codes}
use mod_server.Prelude.Decimal
use mod_server.Http.Response
use mod_server.Http.Response.{HttpResponse}
use mod_server.Http.Handler.{HttpHandler, respond, did_send}

-- What the handler has still to send.
abbrev pub pending : HttpHandler → Bytes
pending h = h.m_response.m_data

-- The response in one piece, around the length that it announces.
abbrev pub head : Bytes → Bytes
head digits =
    codes "HTTP/1.1 200 OK\r\nContent-length: "
    ++ digits
    ++ codes "\r\nConnection: keep-alive\r\nServer: PD Mod Server HTTP\r\n\r\n"

-- The response around a page.
abbrev pub response : Bytes → Bytes
response content = head (Decimal.to_string (length content)) ++ (content ++ codes "\r\n\r\n")

pub respond-head :
    (r : HttpResponse) (content : Bytes)
    → (respond r content).m_data
      ≡ head (Decimal.to_string (length content)) ++ (content ++ codes "\r\n\r\n")
unfolding respond Response.set_status Response.add_header Response.set_content
respond-head r content = simp append_assoc

-- The announced length is that of the page; what follows the empty line is four bytes longer.
pub respond-length :
    (r : HttpResponse) (content : Bytes)
    → (digits : Bytes) × (body : Bytes) × ((respond r content).m_data ≡ head digits ++ body)
      × (Decimal.value 0 digits ≡ length content)
      × (length body ≡ length content + 4)
respond-length r content = (
  Decimal.to_string (length content),
  content ++ codes "\r\n\r\n",
  respond-head r content,
  Decimal.value-to_string (length content),
  length-append content (codes "\r\n\r\n"),
)

-- One accepted send takes its bytes off the front, and leaves the request alone.
pub did_send-pending :
    (h : HttpHandler) (k : ℕ)
    → 0 < k
    → k ≤ length (pending h)
    → did_send h (pos k) ≡ ok (record h { m_response = record { m_data = drop k (pending h) } })
unfolding did_send Response.clear Response.shift_left_by
did_send-pending h k positive fits = ground (arith, drop_all k (pending h))

-- A size that is not positive fails the assertion.
pub did_send-assert :
    (h : HttpHandler) (size : ℤ) → size ≤ℤ pos 0 → did_send h size ≡ fault failed_assert
unfolding did_send
did_send-assert h (pos n) e = ground arith
did_send-assert h (negsuc n) e = refl
