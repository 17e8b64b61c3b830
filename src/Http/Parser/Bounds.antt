-- ===== src/Http/Parser/Bounds.antt =====
-- The parser's loop ends, and every piece it cuts lies inside the request's text.
use mod_server.Prelude.{
  ℕ, zero, suc, ◌+◌, ◌-◌, ◌*◌, ◌≤◌, ◌<◌, ◌≡◌, ◌≢◌, ◌⊎◌, inl, inr, refl, none, some, [], ◌∷◌, ◌++◌,
  arith, Bytes, length, All, All-append,
}
use mod_server.Prelude.Fault.{Result, ok}
use mod_server.Http.Piece.{StringPiece}
use mod_server.Http.Request.{ParseStatus, start, header_newline, finished, more_data, error}
use mod_server.Http.Parser.{Scan, get_char, c_str, piece_at, step_in, step, scan}

-- NULL with no bytes, or bytes of the text, with no NUL behind its end.
abbrev pub IsInside : Bytes → StringPiece → Type 0
IsInside text p =
    ((p.m_start ≡ none) × (p.m_length ≡ 0))
    ⊎ ((at : ℕ) × (p.m_start ≡ some (c_str text at)) × (at + p.m_length ≤ length text))

-- A status at which the loop goes on.
abbrev pub IsLive : ParseStatus → Type 0
IsLive finished = ⊥
IsLive error = ⊥
IsLive more_data = ⊥
IsLive _ = Unit

abbrev pub rank : ParseStatus → ℕ
rank start = 2
rank header_newline = 2
rank finished = 0
rank error = 0
rank more_data = 0
rank _ = 1

abbrev pub measure : Bytes → Scan → ℕ
measure text s = 2 * (length text - s.current_pos) + rank s.status

pub record Inv (text : Bytes) (s : Scan) : Type 0 where
  pub same_text : s.request.m_request ≡ text
  pub fits : s.start_at + s.piece_len ≤ s.current_pos
  pub bounded : s.current_pos ≤ length text
  pub method_inside : IsInside text s.method_piece
  pub url_inside : IsInside text s.url_piece
  pub http_inside : IsInside text s.http_piece
  pub headers_inside : All (IsInside text) s.request.m_headers

piece_at-IsInside : (text : Bytes) (s : Scan) → Inv text s → IsInside text (piece_at s)
piece_at-IsInside text s v = inr (s.start_at, ground arith, omega arith)

headers-IsInside :
    (text : Bytes) (s : Scan)
    → Inv text s
    → All (IsInside text) (s.request.m_headers ++ piece_at s ∷ [])
headers-IsInside text s v =
    All-append (IsInside text) s.request.m_headers _ v.headers_inside
      (piece_at-IsInside text s v, tt)

-- What a round gives: the invariant, less to do, and a status that is live or `finished`.
abbrev Progress : Bytes → Scan → Scan → Type 0
Progress text s t =
    Inv text t × (measure text t < measure text s) × (IsLive t.status ⊎ (t.status ≡ finished))

get_char-lt : (text : Bytes) (i : ℕ) → get_char text i ≢ 0 → i < length text
unfolding get_char
get_char-lt text i h = ground arith

step_in-Progress :
    (text : Bytes) (s : Scan) (st : ParseStatus) (c : ℕ)
    → s.status ≡ st
    → IsLive st
    → (c ≢ 0 → s.current_pos < length text)
    → Inv text s
    → Progress text s (step_in st s c)
unfolding step_in
step_in-Progress text s start c e l h v = ground arith
step_in-Progress text s _ c e l h v =
    ground (arith, piece_at-IsInside text s v, headers-IsInside text s v)

step-Progress : (text : Bytes) (s : Scan) → IsLive s.status → Inv text s → Progress text s (step s)
unfolding step
step-Progress text s l v =
    step_in-Progress text s s.status _ refl l
      (λ ne. rw v.same_text at (get_char-lt s.request.m_request s.current_pos ne)) v

-- With the measure below the fuel the loop stops, at `finished`, and the invariant holds there.
abbrev Stops : Bytes → Result Scan → Type 0
Stops text r = (t : Scan) × (r ≡ ok t) × (t.status ≡ finished) × Inv text t

scan_finished :
    (text : Bytes) (fuel : ℕ) (s : Scan)
    → s.status ≡ finished
    → Inv text s
    → 0 < fuel
    → Stops text (scan fuel s)
unfolding scan
scan_finished text zero s e v h = elim h [ ]
scan_finished text (suc fuel) s e v h = (s, ground arith, e, v)

scan_live : (fuel : ℕ) (s : Scan) → IsLive s.status → scan (suc fuel) s ≡ scan fuel (step s)
unfolding scan
scan_live fuel s l = ground arith

scan_next :
    (text : Bytes) (fuel : ℕ) (s t : Scan)
    → Progress text s t
    → measure text s < suc fuel
    → (IsLive t.status → Inv text t → measure text t < fuel → Stops text (scan fuel t))
    → Stops text (scan fuel t)
scan_next text fuel s t (w, less, inl live) h rest = rest live w (omega arith)
scan_next text fuel s t (w, less, inr done) h rest = scan_finished text fuel t done w (omega arith)

pub scan-Stops :
    (text : Bytes) (fuel : ℕ) (s : Scan)
    → IsLive s.status
    → Inv text s
    → measure text s < fuel
    → Stops text (scan fuel s)
scan-Stops text zero s l v h = elim h [ ]
scan-Stops text (suc fuel) s l v h =
    rw (scan_live fuel s l)
      (scan_next text fuel s (step s) (step-Progress text s l v) h (scan-Stops text fuel (step s)))
