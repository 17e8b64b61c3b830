-- ===== src/Http/Parser/Total.antt =====
-- `Parse` returns on every request that its callers can hand it, and never asks for more data.
use mod_server.Prelude.{
  ℕ, zero, suc, ◌≤◌, ◌<◌, ◌≡◌, ◌≢◌, ◌⊎◌, inl, inr, refl, true, [], ◌∷◌, ◌++◌, arith, Bool-cases,
  leb, Bytes, length, length-append, length-drop, All,
}
use mod_server.Prelude.Fault.{Result, ok, fault, out_of_fuel}
use mod_server.Http.Piece.{StringPiece}
use mod_server.Http.Piece.Laws.{
  IsReadable, contents, method_named, version_named, method_from_string_piece_lem,
  http_ver_from_string_piece_lem,
}
use mod_server.Http.Request.{
  ParseStatus, start, finished, more_data, error, ParseRes, HttpRequest, new_request,
}
use mod_server.Http.Parser.{
  Scan, step, step_in, scan, has_stopped, first_scan, enough_fuel, finish, parse,
}
use mod_server.Http.Parser.Bounds.{IsInside, IsLive, Inv, rank, scan-Stops}

pub IsInside-IsReadable : (text : Bytes) (p : StringPiece) → IsInside text p → IsReadable p
IsInside-IsReadable text p (inl (null, none_left)) = omega arith
IsInside-IsReadable text p (inr (at, e, h)) =
    rw e (omega (arith, length-drop at (text ++ 0 ∷ []), length-append text (0 ∷ [])))

-- The path and the headers lie inside the text, and the last call did not stop in the middle.
pub record IsWellFormed (r : HttpRequest) : Type 0 where
  pub not_waiting : r.m_parse_res.status ≢ more_data
  pub path_inside : IsInside r.m_request r.m_res_path
  pub headers_inside : All (IsInside r.m_request) r.m_headers

-- What the loop gives on such a request: it ends, and does not wait.
abbrev Ends : Bytes → Result Scan → Type 0
Ends text r = (t : Scan) × (r ≡ ok t) × Inv text t × (has_stopped t.status ≡ true)

scan_stopped : (fuel : ℕ) (s : Scan) → 0 < fuel → has_stopped s.status ≡ true → scan fuel s ≡ ok s
unfolding scan
scan_stopped zero s pos h = elim pos [ ]
scan_stopped (suc fuel) s pos h = ground arith

rank-le : (st : ParseStatus) → rank st ≤ 2
rank-le start = omega arith
rank-le _ = omega arith

status_cases : (st : ParseStatus) → st ≢ more_data → IsLive st ⊎ (has_stopped st ≡ true)
status_cases start h = inl tt
status_cases more_data h = absurd (h refl)
status_cases finished h = inr refl
status_cases error h = inr refl
status_cases _ h = inl tt

pub first_scan-Inv :
    (r : HttpRequest)
    → IsWellFormed r
    → r.m_parse_res.stopped_at < length r.m_request
    → Inv r.m_request (first_scan r)
first_scan-Inv r w h = ground (arith, w.headers_inside)

scan-Ends :
    (r : HttpRequest)
    → IsWellFormed r
    → r.m_parse_res.stopped_at < length r.m_request
    → Ends r.m_request (scan (enough_fuel r) (first_scan r))
scan-Ends r w h = elim (status_cases r.m_parse_res.status w.not_waiting) [
  | inl live ↦
      let (t, e, done, v) =
        scan-Stops r.m_request (enough_fuel r) (first_scan r) live (first_scan-Inv r w h)
          (omega (arith, rank-le r.m_parse_res.status)) in
      (t, e, v, rw done)
  | inr stopped ↦ (
    first_scan r,
    scan_stopped (enough_fuel r) (first_scan r) (omega arith) stopped,
    first_scan-Inv r w h,
    stopped,
  )
]

pub finish_lem :
    (text : Bytes) (s : Scan)
    → Inv text s
    → finish s
      ≡ ok (
        record { status = s.status; stopped_at = s.current_pos },
        record s.request {
          m_method = method_named (contents s.method_piece);
          m_res_path = s.url_piece;
          m_http_ver = version_named (contents s.http_piece);
          m_parse_res = record { status = s.status; stopped_at = s.current_pos };
        },
      )
unfolding finish
finish_lem text s v = rw (
  method_from_string_piece_lem s.method_piece (IsInside-IsReadable text _ v.method_inside),
  http_ver_from_string_piece_lem s.http_piece (IsInside-IsReadable text _ v.http_inside),
)

-- What `Parse` gives back.
abbrev Returns : HttpRequest → Result (ParseRes × HttpRequest) → Type 0
Returns r res =
    (out : ParseRes × HttpRequest) × (res ≡ ok out)
    × (out.1.m_request ≡ r.m_request)
    × IsWellFormed out.1
    × (has_stopped out.0.status ≡ true)

stopped-ne-more_data : (st : ParseStatus) → has_stopped st ≡ true → st ≢ more_data
stopped-ne-more_data start h e = cc
stopped-ne-more_data _ h e = cc

-- `Parse` on a request with bytes left is the loop, then `finish`.
pub parse_lem :
    (r : HttpRequest) (t : Scan) {out : ParseRes × HttpRequest}
    → r.m_parse_res.stopped_at < length r.m_request
    → scan (enough_fuel r) (first_scan r) ≡ ok t
    → finish t ≡ ok out
    → parse r ≡ ok out
unfolding parse
parse_lem r t h e f = ground arith

parse_within :
    (r : HttpRequest)
    → IsWellFormed r
    → r.m_parse_res.stopped_at < length r.m_request
    → Returns r (parse r)
parse_within r w h =
    let (t, e, v, done) = scan-Ends r w h in
    let same = v.same_text in
    (
      _,
      parse_lem r t h e (finish_lem r.m_request t v),
      same,
      record {
        not_waiting = stopped-ne-more_data t.status done;
        path_inside = rw same v.url_inside;
        headers_inside = rw same v.headers_inside;
      },
      done,
    )

-- On every well-formed request `Parse` returns: no read leaves the text, the loop ends, the status is
-- FINISHED or ERROR, the text is left as it was, and the request is well formed again.
pub parse-Returns : (r : HttpRequest) → IsWellFormed r → Returns r (parse r)
parse-Returns r w = elim (Bool-cases (leb (length r.m_request) r.m_parse_res.stopped_at)) [
  | inl out ↦ (
    (record { status = error; stopped_at = r.m_parse_res.stopped_at }, r),
    (unfold parse in ground arith),
    refl,
    w,
    refl,
  )
  | inr within ↦ parse_within r w (ground arith)
]

-- A new request that holds `text`.
abbrev pub fresh : Bytes → HttpRequest
fresh text = record new_request { m_request = text }

pub fresh-IsWellFormed : (text : Bytes) → IsWellFormed (fresh text)
fresh-IsWellFormed text = record {
  not_waiting = λ e. cc;
  path_inside = inl (refl, refl);
  headers_inside = tt;
}

length_pos : (text : Bytes) → text ≢ [] → 0 < length text
length_pos [] ne = absurd (ne refl)
length_pos (c ∷ text) ne = omega arith

-- A new request with any text but the empty one is parsed to the status FINISHED, wherever the text
-- breaks off, and its pieces lie inside the text.
pub parse_never_waits :
    (text : Bytes)
    → text ≢ []
    → (out : ParseRes × HttpRequest) × (parse (fresh text) ≡ ok out)
      × (out.0.status ≡ finished)
      × All (IsInside text) out.1.m_headers
      × IsInside text out.1.m_res_path
parse_never_waits text ne =
    let h = length_pos text ne in
    let (t, e, done, v) =
      scan-Stops text (enough_fuel (fresh text)) (first_scan (fresh text)) tt
        (first_scan-Inv (fresh text) (fresh-IsWellFormed text) h) (omega arith) in
    (_, parse_lem (fresh text) t h e (finish_lem text t v), done, v.headers_inside, v.url_inside)

-- In the status MORE_DATA the loop does not end, whatever the fuel.
pub scan_more_data : (fuel : ℕ) (s : Scan) → s.status ≡ more_data → scan fuel s ≡ fault out_of_fuel
unfolding scan step step_in
scan_more_data zero s e = refl
scan_more_data (suc fuel) s e = ground (arith, scan_more_data fuel (step s))
