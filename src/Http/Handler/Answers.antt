-- ===== src/Http/Handler/Answers.antt =====
-- What a received chunk does to the handler.
use mod_server.Prelude.Memory.{read_bytes-take}
use mod_server.Prelude.{
  ℕ, zero, suc, ◌≤◌, ◌<◌, ◌≡◌, ◌≢◌, refl, none, List, [], ◌∷◌, ◌++◌, arith, Bytes, length, take,
  All,
}
use mod_server.Prelude.Int.{pos}
use mod_server.Prelude.Fault.{ok, Returns, >>=-Returns}
use mod_server.PluginApi.Log.{LogLine}
use mod_server.PluginApi.DataChunk.{DataChunk}
use mod_server.Http.Piece.{StringPiece}
use mod_server.Http.Piece
use mod_server.Http.Piece.Laws.{to_string-contents, contents}
use mod_server.Http.Request.{HttpRequest, new_request, ParseRes, ParseStatus, finished}
use mod_server.Http.Request
use mod_server.Http.Parser.Bounds.{IsInside}
use mod_server.Http.Parser.Total.{fresh, parse_never_waits, IsInside-IsReadable}
use mod_server.Http.Handler.{
  Env, HttpHandler, log_headers, log_request, page, respond, took_line, append_chunk, answer,
  did_receive,
}

to_string-Returns : (text : Bytes) (p : StringPiece) → IsInside text p → Returns (Piece.to_string p)
to_string-Returns text p h = (contents p, to_string-contents p (IsInside-IsReadable text p h))

log_headers-Returns :
    (text : Bytes) (hs : List StringPiece) → All (IsInside text) hs → Returns (log_headers hs)
unfolding log_headers
log_headers-Returns text [] p = ([], refl)
log_headers-Returns text (h ∷ hs) p =
    >>=-Returns (log_headers hs) _ (log_headers-Returns text hs p.1)
      (λ lines. >>=-Returns (Piece.to_string h) _ (to_string-Returns text h p.0) (λ t. (_, refl)))

log_request-Returns :
    (text : Bytes) (r : HttpRequest)
    → IsInside text r.m_res_path
    → All (IsInside text) r.m_headers
    → Returns (log_request r)
unfolding log_request
log_request-Returns text r p hs =
    >>=-Returns (Piece.to_string r.m_res_path) _ (to_string-Returns text r.m_res_path p) (λ path.
      >>=-Returns (log_headers r.m_headers) _ (log_headers-Returns text r.m_headers hs)
        (λ lines. (_, refl)))

append-fresh :
    (buf : Bytes) (n : ℕ)
    → n ≤ length buf
    → Request.append new_request buf n ≡ ok (fresh (take n buf))
unfolding Request.append
append-fresh buf n h = rw (read_bytes-take n buf h)

take-ne-nil : (n : ℕ) (buf : Bytes) → 0 < n → n ≤ length buf → take n buf ≢ []
take-ne-nil zero buf pos_n h e = elim pos_n [ ]
take-ne-nil (suc n) [] pos_n h e = elim h [ ]
take-ne-nil (suc n) (c ∷ buf) pos_n h e = cc

answer-finished :
    (env : Env) (h : HttpHandler) (st : ParseStatus) (r : HttpRequest) {lines : List LogLine}
    → st ≡ finished
    → log_request r ≡ ok lines
    → answer env h st r
      ≡ ok (record { m_request = none; m_response = respond h.m_response (page env) }, lines)
unfolding answer
answer-finished env h st r e f = ground arith

-- Any chunk of one byte at least, whatever it holds, is answered at once: the handler has no request
-- left and the whole response to the page.
pub did_receive_answers :
    (env : Env) (h : HttpHandler) (chunk : DataChunk) (n : ℕ)
    → h.m_request ≡ none
    → 0 < n
    → n ≤ length chunk.m_buffer
    → (lines : List LogLine) × (did_receive env h chunk (pos n)
        ≡ ok (record { m_request = none; m_response = respond h.m_response (page env) }, lines))
unfolding did_receive append_chunk
did_receive_answers env h chunk n none_yet positive fits =
    let text : Bytes = take n chunk.m_buffer in
    let (out, e, done, headers, path) =
      parse_never_waits text (take-ne-nil n chunk.m_buffer positive fits) in
    let (lines, logged) = log_request-Returns text out.1 path headers in
    let answered = answer-finished env h out.0.status out.1 done logged in
    (lines ++ took_line env ∷ [], rw (none_yet, append-fresh chunk.m_buffer n fits, e, answered))
