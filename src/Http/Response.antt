-- ===== src/Http/Response.antt =====
-- `HttpResponse` (server_plugin/http/response.h, response.cpp).
use mod_server.Prelude.{
  ℕ, Bool, true, false, not, [], ◌∷◌, ◌++◌, ltb, if◌then◌else◌, Bytes, length, drop, is_empty,
}
use mod_server.Prelude.Text.{codes}
use mod_server.Http.Header.{Header}
use mod_server.Http.Header

pub data Status : Type 0 where
  ok_status not_found : Status

pub record HttpResponse : Type 0 where
  pub m_data : Bytes

-- `GetStatusString`; its last line is for values that the enumeration does not have.
unfoldable pub get_status_string : Status → Bytes
get_status_string ok_status = codes "HTTP/1.1 200 OK"
get_status_string not_found = codes "HTTP/1.1 404 Not Found"

abbrev pub crlf : Bytes
crlf = b'\r' ∷ b'\n' ∷ []

-- `HttpResponse()`.
abbrev pub new_response : HttpResponse
new_response = record { m_data = [] }

-- `size()`.
abbrev pub size : HttpResponse → ℕ
size r = length r.m_data

-- `HasData()`.
abbrev pub has_data : HttpResponse → Bool
has_data r = not (is_empty r.m_data)

-- `Clear()`.
unfoldable pub clear : HttpResponse → HttpResponse
clear r = record r { m_data = [] }

-- `ShiftLeftBy`: the new response, and whether it moved.
unfoldable pub shift_left_by : HttpResponse → ℕ → HttpResponse × Bool
shift_left_by r bytes =
    if ltb (length r.m_data) bytes
    then (r, false)
    else (record r { m_data = drop bytes r.m_data }, true)

-- `SetStatus`: what was there is lost.
unfoldable pub set_status : HttpResponse → Status → HttpResponse
unfolding get_status_string
set_status r status = record r { m_data = get_status_string status ++ crlf }

-- `AddHeader`.
unfoldable pub add_header : HttpResponse → Header → HttpResponse
unfolding Header.to_string
add_header r h = record r { m_data = r.m_data ++ Header.to_string h ++ crlf }

-- `SetContent`.
unfoldable pub set_content : HttpResponse → Bytes → HttpResponse
set_content r content = record r { m_data = r.m_data ++ crlf ++ content ++ crlf ++ crlf }
