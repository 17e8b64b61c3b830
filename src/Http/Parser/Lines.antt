-- ===== src/Http/Parser/Lines.antt =====
-- A request as it is written out, and what the loop does on its lines.
use mathlib.Core.List.{map-append}
use mod_server.Prelude.{
  ℕ, ◌+◌, ◌≡◌, refl, sym, ap, ◌∙◌, List, [], ◌∷◌, ◌++◌, append-nil, append_assoc, length-take, map,
  arith, Bytes, length, length-append, drop, All,
}
use mod_server.Prelude.Fault.{ok}
use mod_server.Http.Piece.{StringPiece, empty_piece, to_string}
use mod_server.Http.Piece.Laws.{to_string-contents}
use mod_server.Http.Request.{
  method, url, http, header, header_newline, finished, HttpRequest, add_header,
}
use mod_server.Http.Parser.{Scan, step_in, step, first_scan}
use mod_server.Http.Parser.Run.{
  Run, Run-trans, at_piece, cut, IsPlain, Run-step, Run-plain, drop_past, take-drop_front,
}
use mod_server.Http.Parser.Total.{fresh}

-- What a request says. The first header is a field of its own, since there is at least one.
pub record RequestText : Type 0 where
  pub method_text : Bytes
  pub path : Bytes
  pub version : Bytes
  pub first_header : Bytes
  pub more_headers : List Bytes

abbrev pub end_line : Bytes → Bytes
end_line rest = b'\r' ∷ b'\n' ∷ rest

abbrev pub render_headers : List Bytes → Bytes → Bytes
render_headers [] rest = end_line rest
render_headers (h ∷ hs) rest = h ++ end_line (render_headers hs rest)

-- The request as it is sent, with `rest` behind it.
abbrev pub render : RequestText → Bytes → Bytes
render q rest =
    q.method_text
    ++ (b' '
        ∷ (q.path
            ++ (b' '
                ∷ (q.version
                    ++ end_line
                        (q.first_header ++ end_line (render_headers q.more_headers rest))))))

-- A header of one byte at least, with no NUL and no end of line.
abbrev pub IsHeader : Bytes → Type 0
IsHeader [] = ⊥
IsHeader (c ∷ h) = IsPlain header c × All (IsPlain header) h

pub record IsSendable (q : RequestText) : Type 0 where
  pub method_plain : All (IsPlain method) q.method_text
  pub path_plain : All (IsPlain url) q.path
  pub version_plain : All (IsPlain http) q.version
  pub first_plain : All (IsPlain header) q.first_header
  pub headers_plain : All IsHeader q.more_headers

module _ (r : HttpRequest) (i : ℕ) (t rest : Bytes) (m u v : StringPiece) where
  pub Run-method :
      All (IsPlain method) t
      → drop i r.m_request ≡ t ++ (b' ' ∷ rest)
      → Run (at_piece r method i m u v) (at_piece r url (i + length t + 1) (cut r i t) u v)
  unfolding step_in
  Run-method p e =
      Run-trans (Run-plain t (b' ' ∷ rest) (at_piece r method i m u v) p e)
        (Run-step b' ' rest tt (drop_past r.m_request t (b' ' ∷ rest) i e) (ground arith))

  pub Run-url :
      All (IsPlain url) t
      → drop i r.m_request ≡ t ++ (b' ' ∷ rest)
      → Run (at_piece r url i m u v) (at_piece r http (i + length t + 1) m (cut r i t) v)
  unfolding step_in
  Run-url p e =
      Run-trans (Run-plain t (b' ' ∷ rest) (at_piece r url i m u v) p e)
        (Run-step b' ' rest tt (drop_past r.m_request t (b' ' ∷ rest) i e) (ground arith))

  -- At the carriage return nothing is added to the piece.
  pub Run-http :
      All (IsPlain http) t
      → drop i r.m_request ≡ t ++ end_line rest
      → Run (at_piece r http i m u v) (at_piece r header (i + length t + 2) m u (cut r i t))
  unfolding step_in
  Run-http p e =
      let at_end = drop_past r.m_request t (end_line rest) i e in
      Run-trans (Run-plain t (end_line rest) (at_piece r http i m u v) p e) (
        Run-trans (Run-step b'\r' (b'\n' ∷ rest) tt at_end refl) (
          Run-step b'\n' rest tt
            (drop_past r.m_request (b'\r' ∷ []) (b'\n' ∷ rest) (i + length t) at_end)
            (ground arith)))

  pub Run-header :
      All (IsPlain header) t
      → drop i r.m_request ≡ t ++ end_line rest
      → Run
          (at_piece r header i m u v)
          (at_piece (add_header r (cut r i t)) header_newline (i + length t + 2) m u v)
  unfolding step_in
  Run-header p e =
      let at_end = drop_past r.m_request t (end_line rest) i e in
      Run-trans (Run-plain t (end_line rest) (at_piece r header i m u v) p e) (
        Run-trans (Run-step b'\r' (b'\n' ∷ rest) tt at_end refl) (
          Run-step b'\n' rest tt
            (drop_past r.m_request (b'\r' ∷ []) (b'\n' ∷ rest) (i + length t) at_end)
            (ground arith)))

pub after_line :
    (text t rest : Bytes) (i : ℕ)
    → drop i text ≡ t ++ end_line rest
    → drop (i + length t + 2) text ≡ rest
after_line text t rest i e =
    drop_past text (b'\r' ∷ b'\n' ∷ []) rest (i + length t) (drop_past text t (end_line rest) i e)

pub after_blank :
    (text t rest : Bytes) (i : ℕ)
    → drop i text ≡ t ++ (b' ' ∷ rest)
    → drop (i + length t + 1) text ≡ rest
after_blank text t rest i e =
    drop_past text (b' ' ∷ []) rest (i + length t) (drop_past text t (b' ' ∷ rest) i e)

-- The request with the headers that stand from `i` on, and where the empty line begins.
abbrev pub with_headers : HttpRequest → ℕ → List Bytes → HttpRequest
with_headers r i [] = r
with_headers r i (h ∷ hs) = with_headers (add_header r (cut r i h)) (i + length h + 2) hs

abbrev pub headers_end : ℕ → List Bytes → ℕ
headers_end i [] = i
headers_end i (h ∷ hs) = headers_end (i + length h + 2) hs

-- The loop stops on the line feed of the empty line.
abbrev pub stopped : HttpRequest → ℕ → StringPiece → StringPiece → StringPiece → Scan
stopped r j m u v = record (at_piece r finished j m u v) { current_pos = j + 1 }

pub Run-headers :
    (hs : List Bytes) (rest : Bytes) (r : HttpRequest) (i : ℕ) (m u v : StringPiece)
    → All IsHeader hs
    → drop i r.m_request ≡ render_headers hs rest
    → Run
        (at_piece r header_newline i m u v)
        (stopped (with_headers r i hs) (headers_end i hs) m u v)
unfolding step_in
Run-headers [] rest r i m u v p e =
    Run-trans (Run-step b'\r' (b'\n' ∷ rest) tt e refl)
      (Run-step b'\n' rest tt (drop_past r.m_request (b'\r' ∷ []) (b'\n' ∷ rest) i e) refl)
Run-headers ([] ∷ hs) rest r i m u v p e = absurd p.0
Run-headers ((c ∷ h) ∷ hs) rest r i m u v p e =
    Run-trans (Run-step {t = at_piece r header i m u v} c _ tt e (ground arith)) (
      Run-trans (Run-header r i (c ∷ h) (render_headers hs rest) m u v p.0 e) (
        Run-headers hs rest _ (i + length (c ∷ h) + 2) m u v p.1
          (after_line r.m_request (c ∷ h) (render_headers hs rest) i e)))

pub to_string-cut :
    (r : HttpRequest) (t rest : Bytes) (i : ℕ)
    → drop i r.m_request ≡ t ++ rest
    → to_string (cut r i t) ≡ ok t
to_string-cut r t rest i e =
    let front = take-drop_front r.m_request t rest (0 ∷ []) i e in
    to_string-contents (cut r i t)
      (omega (arith, ap length front, length-take (length t) (drop i (r.m_request ++ 0 ∷ []))))
    ∙ ap ok front

pub headers_read :
    (hs : List Bytes) (rest : Bytes) (r : HttpRequest) (i : ℕ)
    → drop i r.m_request ≡ render_headers hs rest
    → map to_string (with_headers r i hs).m_headers ≡ map to_string r.m_headers ++ map ok hs
headers_read [] rest r i e = sym (append-nil _)
headers_read (h ∷ hs) rest r i e =
    headers_read hs rest (add_header r (cut r i h)) (i + length h + 2)
      (after_line r.m_request h (render_headers hs rest) i e)
    ∙ simp (map-append, append_assoc, to_string-cut r h _ i e)

pub headers_end-length :
    (hs : List Bytes) (rest : Bytes) (i : ℕ)
    → headers_end i hs + 2 + length rest ≡ i + length (render_headers hs rest)
headers_end-length [] rest i = omega arith
headers_end-length (h ∷ hs) rest i = omega (
  arith,
  headers_end-length hs rest (i + length h + 2),
  length-append h (end_line (render_headers hs rest)),
)

pub step_start :
    (text : Bytes)
    → step (first_scan (fresh text))
      ≡ at_piece (fresh text) method 0 empty_piece empty_piece empty_piece
unfolding step
step_start text = refl
