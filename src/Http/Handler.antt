-- ===== src/Http/Handler.antt =====
-- `HttpHandler` (server_plugin/http/http_handler.h, http_handler.cpp). Files and the clock are
-- parameters; what the handler logs is part of the result.
pub mod Answers
pub mod Sending
use mod_server.Prelude.{
  ℕ, ◌+◌, ◌-◌, ◌%◌, ◌^◌, Bool, true, false, Option, none, some, List, [], ◌∷◌, ◌++◌, leb, ltb,
  if◌then◌else◌, Bytes, length,
}
use mod_server.Prelude.Int.{ℤ, pos, negsuc}
use mod_server.Prelude.Fault.{Result, ok, fault, thrown, assert, ◌>>=◌, ◌>>◌}
use mod_server.Prelude.Text.{codes}
use mod_server.Prelude.Decimal.{to_string as decimal}
use mod_server.PluginApi.Log.{LogLine, info}
use mod_server.PluginApi.DataChunk.{DataChunk, new_chunk}
use mod_server.Http.Piece
use mod_server.Http.Piece.{
  StringPiece, RequestMethod, get, invalid_method, HttpVersion, http_1_0, http_1_1, invalid_version,
}
use mod_server.Http.Request
use mod_server.Http.Request.{HttpRequest, new_request, ParseStatus, finished, ParseRes}
use mod_server.Http.Parser.{parse}
use mod_server.Http.Response
use mod_server.Http.Response.{HttpResponse, new_response, ok_status}

-- What the world holds during one call: the two files, if they open, and `GetTickCount` at both ends.
pub record Env : Type 0 where
  pub index_html : Option Bytes
  pub not_found_html : Option Bytes
  pub time_start : ℕ
  pub time_end : ℕ

pub record HttpHandler : Type 0 where
  pub m_request : Option HttpRequest
  pub m_response : HttpResponse

-- `HttpHandler(freeFn)`.
abbrev pub new_handler : HttpHandler
new_handler = record { m_request = none; m_response = new_response }

abbrev built_in_page : Bytes
built_in_page =
    codes "<!doctype html><html><head><title>Not found</title>"
    ++ codes "<body><p>404 Not Found</p></body></head></html>"

-- `NotFoundPage`.
unfoldable pub not_found_page : Env → Bytes
not_found_page env = elim env.not_found_html [ some page ↦ page | none ↦ built_in_page ]

-- `HasDataToSend`.
unfoldable pub has_data_to_send : HttpHandler → Bool
has_data_to_send h = Response.has_data h.m_response

abbrev line : Bytes → LogLine
line text = record { severity = info; text = text }

abbrev method_number : RequestMethod → ℕ
method_number get = 0
method_number invalid_method = 1

abbrev version_number : HttpVersion → ℕ
version_number http_1_0 = 0
version_number http_1_1 = 1
version_number invalid_version = 2

-- `for (const auto& header : headers()) PluginLog(INFO) << header.ToString();`
log_headers : List StringPiece → Result (List LogLine)
log_headers [] = ok []
log_headers (h ∷ hs) = do rest ← log_headers hs; text ← Piece.to_string h; ok (line text ∷ rest)

-- The lines on the request.
log_request : HttpRequest → Result (List LogLine)
unfolding log_headers
log_request r = do
  path ← Piece.to_string r.m_res_path
  headers ← log_headers r.m_headers
  ok (
      line (codes "Method: " ++ decimal (method_number r.m_method))
      ∷ line (codes "URL: " ++ path)
      ∷ line (codes "HTTP: " ++ decimal (version_number r.m_http_ver))
      ∷ headers)

-- `dataToSend`.
unfoldable pub page : Env → Bytes
unfolding not_found_page
page env = elim env.index_html [ some text ↦ text | none ↦ not_found_page env ]

-- The response on a finished request.
unfoldable pub respond : HttpResponse → Bytes → HttpResponse
respond r content =
    let r1 = Response.set_status r ok_status in
    let r2 =
      Response.add_header r1
        (record { m_name = codes "Content-length"; m_value = decimal (length content) }) in
    let r3 =
      Response.add_header r2
        (record { m_name = codes "Connection"; m_value = codes "keep-alive" }) in
    let r4 =
      Response.add_header r3
        (record { m_name = codes "Server"; m_value = codes "PD Mod Server HTTP" }) in
    Response.set_content r4 content

-- `Append(buf, size)`: a negative length makes `std::string(data, size)` throw.
append_chunk : HttpRequest → DataChunk → ℤ → Result HttpRequest
append_chunk r chunk (pos size) = Request.append r chunk.m_buffer size
append_chunk r chunk (negsuc n) = fault thrown

-- The `if` on the status.
answer : Env → HttpHandler → ParseStatus → HttpRequest → Result (HttpHandler × List LogLine)
unfolding log_request
answer env h finished r = do
  lines ← log_request r
  ok (record { m_request = none; m_response = respond h.m_response (page env) }, lines)
answer env h _ r = ok (record h { m_request = some r }, [])

abbrev current_request : Option HttpRequest → HttpRequest
current_request none = new_request
current_request (some r) = r

-- The last line: the difference of two 32-bit counters.
abbrev pub took_line : Env → LogLine
took_line env =
    line (codes "Parsing took: " ++ decimal ((env.time_end + 2 ^ 32 - env.time_start) % 2 ^ 32))

-- `DidReceive`: the new handler and what it logged.
unfoldable pub did_receive : Env → HttpHandler → DataChunk → ℤ → Result (HttpHandler × List LogLine)
unfolding append_chunk answer
did_receive env h chunk size = do
  request ← append_chunk (current_request h.m_request) chunk size
  (res, parsed) ← parse request
  (h', lines) ← answer env h res.status parsed
  ok (h', lines ++ took_line env ∷ [])

is_positive : ℤ → Bool
is_positive (pos n) = ltb 0 n
is_positive (negsuc n) = false

-- Behind the assertion and the early return.
sent : HttpHandler → ℤ → HttpHandler
sent h (negsuc n) = h
sent h (pos size) =
    if leb (Response.size h.m_response) size
    then record h { m_response = Response.clear h.m_response }
    else record h { m_response = (Response.shift_left_by h.m_response size).0 }

-- `DidSend`. The early return repeats the assertion.
unfoldable pub did_send : HttpHandler → ℤ → Result HttpHandler
unfolding is_positive sent
did_send h size = do assert (is_positive size); ok (if is_positive size then sent h size else h)

-- `data_to_send`: NULL, or the text with its NUL.
unfoldable pub data_to_send : HttpHandler → Option Bytes
data_to_send h =
    if Response.has_data h.m_response then some (h.m_response.m_data ++ 0 ∷ []) else none

-- `data_to_send_size`.
unfoldable pub data_to_send_size : HttpHandler → ℕ
data_to_send_size h = Response.size h.m_response

-- `AllocateChunk` and `DiscardChunk`.
unfoldable pub allocate_chunk : Bytes → DataChunk
allocate_chunk raw = new_chunk raw

unfoldable pub discard_chunk : DataChunk → Unit {0}
discard_chunk c = tt
