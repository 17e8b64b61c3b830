-- ===== src/Http/Parser/NoHeaders.antt =====
-- A request line with no headers behind it.
use mod_server.Prelude.{
  ℕ, ◌+◌, ◌<◌, ◌≡◌, refl, ap, ◌∙◌, [], ◌∷◌, ◌++◌, map, arith, Bytes, length, length-append, drop,
  All,
}
use mod_server.Prelude.Fault.{ok}
use mod_server.Http.Piece.{to_string}
use mod_server.Http.Request.{method, url, http, finished, ParseRes, HttpRequest, add_header}
use mod_server.Http.Parser.{Scan, step_in, first_scan, enough_fuel, parse}
use mod_server.Http.Parser.Bounds.{scan-Stops}
use mod_server.Http.Parser.Run.{
  Run, here, next, Run-trans, Run-end, Run-scan, at_piece, cut, IsPlain, Run-step_end,
}
use mod_server.Http.Parser.Lines.{
  end_line, Run-method, Run-url, Run-http, Run-header, after_line, after_blank, to_string-cut,
  step_start,
}
use mod_server.Http.Parser.Total.{fresh, fresh-IsWellFormed, first_scan-Inv, finish_lem, parse_lem}

module _ (m u v : Bytes) (pm : All (IsPlain method) m) (pu : All (IsPlain url) u)
    (pv : All (IsPlain http) v) where
  abbrev line : Bytes
  line = m ++ (b' ' ∷ (u ++ (b' ' ∷ (v ++ end_line (end_line [])))))

  abbrev path_at : ℕ
  path_at = 0 + length m + 1

  abbrev version_at : ℕ
  version_at = path_at + length u + 1

  abbrev blank_at : ℕ
  blank_at = version_at + length v + 2

  at_path : drop path_at line ≡ u ++ (b' ' ∷ (v ++ end_line (end_line [])))
  at_path = after_blank line m _ 0 refl

  at_version : drop version_at line ≡ v ++ end_line (end_line [])
  at_version = after_blank line u _ path_at at_path

  at_blank : drop blank_at line ≡ end_line []
  at_blank = after_line line v (end_line []) version_at at_version

  abbrev with_blank : HttpRequest
  with_blank = add_header (fresh line) (cut (fresh line) blank_at [])

  abbrev last_scan : Scan
  last_scan =
      record (at_piece with_blank finished (blank_at + 0 + 2) (cut (fresh line) 0 m)
        (cut (fresh line) path_at u) (cut (fresh line) version_at v)) { status = finished }

  Run-line : Run (first_scan (fresh line)) last_scan
  unfolding step_in
  Run-line =
      let at_end = after_line line [] [] blank_at at_blank in
      Run-trans (next tt (Run-end here (step_start line))) (
        Run-trans (Run-method (fresh line) 0 m _ _ _ _ pm refl) (
          Run-trans (Run-url (fresh line) path_at u _ _ _ _ pu at_path) (
            Run-trans (Run-http (fresh line) version_at v (end_line []) _ _ _ pv at_version) (
              Run-trans (Run-header (fresh line) blank_at [] [] _ _ _ tt at_blank)
                (Run-trans (Run-step_end tt at_end refl) (Run-step_end tt at_end refl))))))

  -- A request with no headers, whose parts hold no NUL and no delimiter of their own, is read as a
  -- request with one header, which is empty.
  pub parse_no_headers :
      (out : ParseRes × HttpRequest) × (parse (fresh line) ≡ ok out)
      × (out.0.status ≡ finished)
      × (map to_string out.1.m_headers ≡ ok [] ∷ [])
  parse_no_headers =
      let h : 0 < length line =
        omega (arith, length-append m (b' ' ∷ (u ++ (b' ' ∷ (v ++ end_line (end_line [])))))) in
      let (t, e, done, w) =
        scan-Stops line (enough_fuel (fresh line)) (first_scan (fresh line)) tt
          (first_scan-Inv (fresh line) (fresh-IsWellFormed line) h) (omega arith) in
      let same : t ≡ last_scan = Run-scan (enough_fuel (fresh line)) t Run-line refl e in
      (
        _,
        parse_lem (fresh line) last_scan h (e ∙ ap ok same)
            (finish_lem line last_scan (rw same at w)),
        refl,
        ap (λ x. x ∷ []) (to_string-cut (fresh line) [] (end_line []) blank_at at_blank),
      )
