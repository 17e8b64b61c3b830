-- ===== src/Http/Request.antt =====
-- `HttpRequest` and the types of `HttpRequestParser` (server_plugin/http/request.h, request.cpp).
use mod_server.Prelude.Memory.{read_bytes}
use mod_server.Prelude.{ℕ, Bool, List, [], ◌∷◌, ◌++◌, Bytes, is_empty}
use mod_server.Prelude.Fault.{Result, ok, ◌>>=◌}
use mod_server.Http.Piece.{
  StringPiece, empty_piece, RequestMethod, invalid_method, HttpVersion, invalid_version,
}

pub data ParseStatus : Type 0 where
  start method url http header header_newline finished more_data error : ParseStatus

pub record ParseRes : Type 0 where
  pub status : ParseStatus
  pub stopped_at : ℕ

pub record HttpRequest : Type 0 where
  pub m_request : Bytes
  pub m_parse_res : ParseRes
  pub m_res_path : StringPiece
  pub m_method : RequestMethod
  pub m_http_ver : HttpVersion
  pub m_headers : List StringPiece

-- `HttpRequest()`.
abbrev pub new_request : HttpRequest
new_request = record {
  m_request = [];
  m_parse_res = record { status = start; stopped_at = 0 };
  m_res_path = empty_piece;
  m_method = invalid_method;
  m_http_ver = invalid_version;
  m_headers = [];
}

-- `HttpRequest::Empty`.
pub empty : HttpRequest → Bool
empty r = is_empty r.m_request

-- `HttpRequest::Clear`.
pub clear : HttpRequest → HttpRequest
clear r = record r { m_request = [] }

-- `Append(const std::string&)`.
abbrev append_string : HttpRequest → Bytes → HttpRequest
append_string r data_ = record r { m_request = r.m_request ++ data_ }

-- `Append(const char*, int)`: `std::string(data, size)` reads `size` bytes.
unfoldable pub append : HttpRequest → Bytes → ℕ → Result HttpRequest
unfolding read_bytes
append r buf size = do text ← read_bytes size buf; ok (append_string r text)

-- `HttpRequest::AddHeader`.
abbrev pub add_header : HttpRequest → StringPiece → HttpRequest
add_header r h = record r { m_headers = r.m_headers ++ h ∷ [] }
