-- ===== src/Http/Parser.antt =====
-- `HttpRequestParser::Parse` (server_plugin/http/request.cpp): the machine over the bytes of a
-- request. The variables of the loop are a record; a pointer into the request is an offset.
pub mod Bounds
pub mod Total
pub mod Run
pub mod Lines
pub mod RoundTrip
pub mod NoHeaders
use mod_server.Prelude.{
  ℕ, zero, suc, ◌+◌, ◌*◌, Bool, true, false, Option, none, some, List, [], ◌∷◌, ◌++◌, arith, leb,
  ◌==◌, if◌then◌else◌, Bytes, length, get_or, drop,
}
use mod_server.Prelude.Fault.{Result, ok, fault, out_of_fuel, ◌>>=◌}
use mod_server.Http.Piece.{
  StringPiece, empty_piece, method_from_string_piece, http_ver_from_string_piece,
}
use mod_server.Http.Request.{
  ParseStatus, start, method, url, http, header, header_newline, finished, more_data, error,
  ParseRes, HttpRequest, add_header,
}

pub record Scan : Type 0 where
  pub request : HttpRequest
  pub status : ParseStatus
  pub current_pos : ℕ
  pub start_at : ℕ
  pub piece_len : ℕ
  pub method_piece : StringPiece
  pub url_piece : StringPiece
  pub http_piece : StringPiece

-- `getChar`: past the end there is a NUL.
unfoldable pub get_char : Bytes → ℕ → ℕ
get_char request curr_pos = if leb (length request) curr_pos then 0 else get_or request curr_pos 0

-- `request.data().c_str()` from an offset on.
abbrev pub c_str : Bytes → ℕ → Bytes
c_str text at = drop at (text ++ 0 ∷ [])

-- The piece of `piece_len` bytes that begins at `start_at`.
abbrev pub piece_at : Scan → StringPiece
piece_at s = record {
  m_start = some (c_str s.request.m_request s.start_at);
  m_length = s.piece_len;
}

-- `currentPos++; start = &requestString[currentPos]; pieceLen = 0; status = next;`
abbrev next_piece : Scan → ParseStatus → Scan
next_piece s next = record s {
  status = next;
  current_pos = s.current_pos + 1;
  start_at = s.current_pos + 1;
  piece_len = 0;
}

-- `pieceLen++; currentPos++;`
abbrev in_piece : Scan → Scan
in_piece s = record s { piece_len = s.piece_len + 1; current_pos = s.current_pos + 1 }

abbrev skip : Scan → Scan
skip s = record s { current_pos = s.current_pos + 1 }

step_method : Scan → ℕ → Scan
step_method s c =
    if c == 0
    then record s { status = finished }
    else if c == b' '
    then next_piece (record s { method_piece = piece_at s }) url
    else in_piece s

step_url : Scan → ℕ → Scan
step_url s c =
    if c == 0
    then record s { status = finished }
    else if c == b' '
    then next_piece (record s { url_piece = piece_at s }) http
    else in_piece s

step_http : Scan → ℕ → Scan
step_http s c =
    if c == 0
    then record s { status = finished }
    else if c == b'\r'
    then skip s
    else if c == b'\n'
    then next_piece (record s { http_piece = piece_at s }) header
    else in_piece s

step_header : Scan → ℕ → Scan
step_header s c =
    if c == 0
    then record s { status = finished }
    else if c == b'\r'
    then skip s
    else if c == b'\n'
    then next_piece (record s { request = add_header s.request (piece_at s) }) header_newline
    else in_piece s

step_header_newline : Scan → ℕ → Scan
step_header_newline s c =
    if c == b'\r'
    then skip s
    else if c == b'\n'
    then record s { status = finished }
    else record s { status = header }

-- The `switch` on the status; the byte is `getChar(requestString, currentPos)`.
unfoldable pub step_in : ParseStatus → Scan → ℕ → Scan
unfolding step_method step_url step_http step_header step_header_newline
step_in start s c = record s { start_at = 0; status = method }
step_in method s c = step_method s c
step_in url s c = step_url s c
step_in http s c = step_http s c
step_in header s c = step_header s c
step_in header_newline s c = step_header_newline s c
step_in finished s c = record s { status = more_data }
step_in more_data s c = record s { status = more_data }
step_in error s c = record s { status = more_data }

unfoldable pub step : Scan → Scan
unfolding get_char step_in
step s = step_in s.status s (get_char s.request.m_request s.current_pos)

-- The loop's test, negated.
abbrev pub has_stopped : ParseStatus → Bool
has_stopped error = true
has_stopped finished = true
has_stopped _ = false

-- The `while` loop, on fuel.
unfoldable pub scan : ℕ → Scan → Result Scan
scan zero s = fault out_of_fuel
scan (suc fuel) s = elim (has_stopped s.status) [ true ↦ ok s | false ↦ scan fuel (step s) ]

-- The variables before the loop.
abbrev pub first_scan : HttpRequest → Scan
first_scan r = record {
  request = r;
  status = r.m_parse_res.status;
  current_pos = r.m_parse_res.stopped_at;
  start_at = r.m_parse_res.stopped_at;
  piece_len = 0;
  method_piece = empty_piece;
  url_piece = empty_piece;
  http_piece = empty_piece;
}

-- Two rounds for each byte, and four more.
abbrev pub enough_fuel : HttpRequest → ℕ
enough_fuel r = 2 * length r.m_request + 4

-- What follows the loop.
unfoldable pub finish : Scan → Result (ParseRes × HttpRequest)
unfolding method_from_string_piece http_ver_from_string_piece
finish s = do
  let out : ParseRes = record { status = s.status; stopped_at = s.current_pos }
  request_method ← method_from_string_piece s.method_piece
  version ← http_ver_from_string_piece s.http_piece
  ok (
    out,
    record s.request {
      m_method = request_method;
      m_res_path = s.url_piece;
      m_http_ver = version;
      m_parse_res = out;
    },
  )

-- `HttpRequestParser::Parse`: the result, and the request that it writes to.
unfoldable pub parse : HttpRequest → Result (ParseRes × HttpRequest)
parse r =
    if leb (length r.m_request) r.m_parse_res.stopped_at
    then ok (record { status = error; stopped_at = r.m_parse_res.stopped_at }, r)
    else (do last ← scan (enough_fuel r) (first_scan r); finish last)
