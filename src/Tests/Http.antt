-- ===== src/Tests/Http.antt =====
-- The HTTP plugin at a concrete request, chunk and response.
use mod_server.Prelude.{
  ◌<◌, ◌^◌, ◌≡◌, ◌≢◌, ◌↔◌, true, none, some, List, [], ◌∷◌, ◌++◌, map, arith, ltb→lt, refl, Bytes,
  length, replicate, All,
}
use mod_server.Prelude.Int.{pos}
use mod_server.Prelude.Fault.{ok, fault, out_of_fuel}
use mod_server.Prelude.Text.{codes}
use mod_server.Prelude.Decimal
use mod_server.PluginApi.Log.{LogLine}
use mod_server.PluginApi.DataChunk.{DataChunk, m_buf_size}
use mod_server.PluginApi.Handler.{HandlerLaws}
use mod_server.Http.Piece.{to_string}
use mod_server.Http.Request.{ParseRes, HttpRequest, finished, more_data}
use mod_server.Http.Parser.{Scan, scan, first_scan, has_stopped, parse}
use mod_server.Http.Parser.Bounds.{IsInside}
use mod_server.Http.Parser.Total.{
  IsWellFormed, fresh, fresh-IsWellFormed, parse-Returns, parse_never_waits, scan_more_data,
}
use mod_server.Http.Parser.Lines.{RequestText, IsSendable, render, end_line}
use mod_server.Http.Parser.RoundTrip.{Reads, parse-render}
use mod_server.Http.Parser.NoHeaders.{parse_no_headers}
use mod_server.Http.Response.{new_response}
use mod_server.Http.Handler.{Env, HttpHandler, new_handler, page, respond, did_receive, did_send}
use mod_server.Http.Handler.Answers.{did_receive_answers}
use mod_server.Http.Handler.Sending.{head, pending, response, respond-length, did_send-pending}
use mod_server.Http.Contract.{http_ops, http-IsReady}

abbrev hello : RequestText
hello = record {
  method_text = codes "GET";
  path = codes "/a";
  version = codes "HTTP/1.1";
  first_header = codes "A: b";
  more_headers = codes "C" ∷ [];
}

hello-IsSendable : IsSendable hello
hello-IsSendable = record {
  method_plain = ground arith;
  path_plain = ground arith;
  version_plain = ground arith;
  first_plain = ground arith;
  headers_plain = ground arith;
}

abbrev behind : Bytes
behind = codes "more"

parse-render_example :
    (out : ParseRes × HttpRequest) × (parse (fresh (render hello behind)) ≡ ok out)
    × Reads hello behind out
parse-render_example = parse-render hello behind hello-IsSendable

abbrev cut_off : Bytes
cut_off = codes "GET /"

parse-Returns_example :
    (out : ParseRes × HttpRequest) × (parse (fresh cut_off) ≡ ok out)
    × (out.1.m_request ≡ cut_off)
    × IsWellFormed out.1
    × (has_stopped out.0.status ≡ true)
parse-Returns_example = parse-Returns (fresh cut_off) (fresh-IsWellFormed cut_off)

cut_off-ne-nil : cut_off ≢ []
cut_off-ne-nil e = cc

parse_never_waits_example :
    (out : ParseRes × HttpRequest) × (parse (fresh cut_off) ≡ ok out)
    × (out.0.status ≡ finished)
    × All (IsInside cut_off) out.1.m_headers
    × IsInside cut_off out.1.m_res_path
parse_never_waits_example = parse_never_waits cut_off cut_off-ne-nil

abbrev waiting : Scan
waiting = record (first_scan (fresh cut_off)) { status = more_data }

waiting_spins : scan 9 waiting ≡ fault out_of_fuel
waiting_spins = scan_more_data 9 waiting refl

abbrev bare : Bytes
bare = codes "GET" ++ (b' ' ∷ (codes "/" ++ (b' ' ∷ (codes "HTTP/1.0" ++ end_line (end_line [])))))

parse_no_headers_example :
    (out : ParseRes × HttpRequest) × (parse (fresh bare) ≡ ok out)
    × (out.0.status ≡ finished)
    × (map to_string out.1.m_headers ≡ ok [] ∷ [])
parse_no_headers_example =
    parse_no_headers (codes "GET") (codes "/") (codes "HTTP/1.0") (ground arith) (ground arith)
      (ground arith)

abbrev site : Env
site = record {
  index_html = some (codes "hi");
  not_found_html = none;
  time_start = 5;
  time_end = 7;
}

abbrev received : DataChunk
received = record { m_buffer = cut_off ++ 0 ∷ [] }

did_receive_answers_example :
    (lines : List LogLine) × (did_receive site new_handler received (pos 5)
      ≡ ok (record { m_request = none; m_response = respond new_response (page site) }, lines))
did_receive_answers_example =
    did_receive_answers site new_handler received 5 refl (ltb→lt 0 5 refl) (omega arith)

abbrev uninitialised : Bytes
uninitialised = replicate m_buf_size 7

site_fits : length (response (page site)) < 2 ^ 31
unfolding page Decimal.to_string
site_fits = ltb→lt _ (2 ^ 31) refl

http-IsReady_example :
    (laws : HandlerLaws (http_ops site uninitialised)) × laws.IsReady new_handler
    × ((h : HttpHandler) → laws.IsReady h ↔ ((h.m_request ≡ none) × (length (pending h) < 2 ^ 31)))
http-IsReady_example = http-IsReady site uninitialised refl site_fits

respond-length_example :
    (digits : Bytes) × (body : Bytes) × ((respond new_response (codes "hi")).m_data
      ≡ head digits ++ body)
    × (Decimal.value 0 digits ≡ 2)
    × (length body ≡ 6)
respond-length_example = respond-length new_response (codes "hi")

abbrev halfway : HttpHandler
halfway = record { m_request = none; m_response = record { m_data = codes "abc" } }

halfway_sent :
    did_send halfway (pos 2)
    ≡ ok (record { m_request = none; m_response = record { m_data = codes "c" } })
halfway_sent = did_send-pending halfway 2 (ltb→lt 0 2 refl) (omega arith)
