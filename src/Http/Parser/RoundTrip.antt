-- ===== src/Http/Parser/RoundTrip.antt =====
-- A request that is written out whole is read back: its method, path, version and headers.
use mod_server.Prelude.{
  ℕ, ◌+◌, ◌<◌, ◌≡◌, refl, ap, ◌∙◌, [], ◌∷◌, ◌++◌, map, arith, Bytes, length, length-append, drop,
}
use mod_server.Prelude.Fault.{ok}
use mod_server.Http.Piece.{to_string}
use mod_server.Http.Piece.Laws.{contents, method_named, version_named}
use mod_server.Http.Request.{finished, ParseRes, HttpRequest, add_header}
use mod_server.Http.Parser.{Scan, step_in, first_scan, enough_fuel, parse}
use mod_server.Http.Parser.Bounds.{scan-Stops}
use mod_server.Http.Parser.Run.{Run, here, next, Run-trans, Run-end, Run-scan, cut, take-drop_front}
use mod_server.Http.Parser.Total.{fresh, fresh-IsWellFormed, first_scan-Inv, finish_lem, parse_lem}
use mod_server.Http.Parser.Lines.{
  RequestText, IsSendable, end_line, render_headers, render, Run-method, Run-url, Run-http,
  Run-header, after_line, after_blank, with_headers, headers_end, stopped, Run-headers,
  to_string-cut, headers_read, headers_end-length, step_start,
}

-- What `Parse` reports for a request that was sent whole.
pub record Reads (q : RequestText) (rest : Bytes) (out : ParseRes × HttpRequest) : Type 0 where
  pub is_finished : out.0.status ≡ finished
  pub stops_before : out.0.stopped_at + 1 + length rest ≡ length (render q rest)
  pub method_is : out.1.m_method ≡ method_named q.method_text
  pub path_is : to_string out.1.m_res_path ≡ ok q.path
  pub version_is : out.1.m_http_ver ≡ version_named q.version
  pub headers_are : map to_string out.1.m_headers ≡ map ok (q.first_header ∷ q.more_headers)

module _ (q : RequestText) (rest : Bytes) (p : IsSendable q) where
  abbrev text : Bytes
  text = render q rest

  abbrev path_at : ℕ
  path_at = 0 + length q.method_text + 1

  abbrev version_at : ℕ
  version_at = path_at + length q.path + 1

  abbrev header_at : ℕ
  header_at = version_at + length q.version + 2

  abbrev more_at : ℕ
  more_at = header_at + length q.first_header + 2

  abbrev from_header : Bytes
  from_header = q.first_header ++ end_line (render_headers q.more_headers rest)

  abbrev from_version : Bytes
  from_version = q.version ++ end_line from_header

  abbrev from_path : Bytes
  from_path = q.path ++ (b' ' ∷ from_version)

  at_path : drop path_at text ≡ from_path
  at_path = after_blank text q.method_text from_path 0 refl

  at_version : drop version_at text ≡ from_version
  at_version = after_blank text q.path from_version path_at at_path

  at_header : drop header_at text ≡ from_header
  at_header = after_line text q.version from_header version_at at_version

  at_more : drop more_at text ≡ render_headers q.more_headers rest
  at_more = after_line text q.first_header (render_headers q.more_headers rest) header_at at_header

  abbrev first_read : HttpRequest
  first_read = add_header (fresh text) (cut (fresh text) header_at q.first_header)

  abbrev all_read : HttpRequest
  all_read = with_headers first_read more_at q.more_headers

  abbrev last_scan : Scan
  last_scan =
      stopped all_read (headers_end more_at q.more_headers) (cut (fresh text) 0 q.method_text)
        (cut (fresh text) path_at q.path) (cut (fresh text) version_at q.version)

  Run-request : Run (first_scan (fresh text)) last_scan
  unfolding step_in
  Run-request = Run-trans (next tt (Run-end here (step_start text))) (
      Run-trans (Run-method (fresh text) 0 q.method_text from_path _ _ _ p.method_plain refl) (
        Run-trans (Run-url (fresh text) path_at q.path from_version _ _ _ p.path_plain at_path) (
          Run-trans
            (Run-http (fresh text) version_at q.version from_header _ _ _ p.version_plain
              at_version)
            (Run-trans
              (Run-header (fresh text) header_at q.first_header (render_headers q.more_headers rest)
                _ _ _ p.first_plain at_header)
              (Run-headers q.more_headers rest first_read more_at _ _ _ p.headers_plain at_more)))))

  length-render :
      length text
      ≡ length q.method_text
        + 1
        + (length q.path
            + 1
            + (length q.version
                + 2
                + (length q.first_header + 2 + length (render_headers q.more_headers rest))))
  length-render = omega (
    arith,
    length-append q.method_text (b' ' ∷ from_path),
    length-append q.path (b' ' ∷ from_version),
    length-append q.version (end_line from_header),
    length-append q.first_header (end_line (render_headers q.more_headers rest)),
  )

  last_scan-Reads : Reads q rest (
    record { status = finished; stopped_at = last_scan.current_pos },
    record all_read {
      m_method = method_named (contents last_scan.method_piece);
      m_res_path = last_scan.url_piece;
      m_http_ver = version_named (contents last_scan.http_piece);
      m_parse_res = record { status = finished; stopped_at = last_scan.current_pos };
    },
  )
  last_scan-Reads = record {
    is_finished = refl;
    stops_before = omega (arith, length-render, headers_end-length q.more_headers rest more_at);
    method_is =
        ap method_named (take-drop_front text q.method_text (b' ' ∷ from_path) (0 ∷ []) 0 refl);
    path_is = to_string-cut (fresh text) q.path (b' ' ∷ from_version) path_at at_path;
    version_is =
        ap version_named
          (take-drop_front text q.version (end_line from_header) (0 ∷ []) version_at at_version);
    headers_are =
        headers_read q.more_headers rest first_read more_at at_more
        ∙ ap (λ x. x ∷ map ok q.more_headers)
            (to_string-cut (fresh text) q.first_header _ header_at at_header);
  }

  -- A request with a header at least, whose parts hold no NUL and no delimiter of their own, and whose
  -- headers but the first are not empty, is read back, whatever stands behind it: the status is FINISHED at
  -- the line feed of the empty line, and method, path, version and headers are those that were sent.
  pub parse-render :
      (out : ParseRes × HttpRequest) × (parse (fresh text) ≡ ok out) × Reads q rest out
  parse-render =
      let h : 0 < length text = omega (arith, length-render) in
      let (t, e, done, v) =
        scan-Stops text (enough_fuel (fresh text)) (first_scan (fresh text)) tt
          (first_scan-Inv (fresh text) (fresh-IsWellFormed text) h) (omega arith) in
      let same : t ≡ last_scan = Run-scan (enough_fuel (fresh text)) t Run-request refl e in
      (
        _,
        parse_lem (fresh text) last_scan h (e ∙ ap ok same)
            (finish_lem text last_scan (rw same at v)),
        last_scan-Reads,
      )
