-- ===== src/Http/Parser/Run.antt =====
-- Runs of the parser's loop as a relation, and the runs over one piece of a request.
use mod_server.Prelude.{
  ℕ, zero, suc, ◌+◌, ◌≡◌, ◌≢◌, refl, sym, ap, ◌∙◌, true, some, [], ◌∷◌, ◌++◌, append_assoc, arith,
  Bytes, length, take, drop, All, take_append, drop_append,
}
use native.Mathlib.Nat.{zero-add}
use mod_server.Prelude.Fault.{ok}
use mod_server.Http.Piece.{StringPiece}
use mod_server.Http.Request.{
  ParseStatus, start, method, url, http, header, finished, more_data, error, HttpRequest,
}
use mod_server.Http.Parser.{Scan, get_char, c_str, step_in, step, has_stopped, scan}
use mod_server.Http.Parser.Bounds.{IsLive}

-- The loop takes `s` to `t`.
pub data Run : Scan → Scan → Type 0 where
  here : {s : Scan} → Run s s
  next : {s t : Scan} → IsLive s.status → Run (step s) t → Run s t

pub Run-trans : {s t u : Scan} → Run s t → Run t u → Run s u
Run-trans here k = k
Run-trans (next l r) k = next l (Run-trans r k)

pub Run-end : {s t u : Scan} → Run s t → t ≡ u → Run s u
Run-end {s} r e = rw e at r

scan-step :
    (fuel : ℕ) (s t' : Scan)
    → IsLive s.status
    → scan fuel s ≡ ok t'
    → (f : ℕ) × (fuel ≡ suc f) × (scan fuel s ≡ scan f (step s))
unfolding scan
scan-step zero s t' l e = absurd (cc)
scan-step (suc f) s t' l e = (f, refl, ground arith)

scan_end : (fuel : ℕ) (s t' : Scan) → has_stopped s.status ≡ true → scan fuel s ≡ ok t' → t' ≡ s
unfolding scan
scan_end zero s t' h e = absurd (cc)
scan_end (suc f) s t' h e = ground arith

-- Where the loop ends, it ends at the end of any run that has stopped.
pub Run-scan :
    {s t : Scan} (fuel : ℕ) (t' : Scan)
    → Run s t
    → has_stopped t.status ≡ true
    → scan fuel s ≡ ok t'
    → t' ≡ t
Run-scan fuel t' here h e = scan_end fuel _ t' h e
Run-scan fuel t' (next {s} l r) h e =
    let (f, _, same) = scan-step fuel s t' l e in Run-scan f t' r h (sym same ∙ e)

get_char-drop :
    (text : Bytes) (i c : ℕ) {rest : Bytes} → drop i text ≡ c ∷ rest → get_char text i ≡ c
unfolding get_char
get_char-drop [] zero c e = cc
get_char-drop [] (suc i) c e = cc
get_char-drop (x ∷ text) zero c e = ground arith
get_char-drop (x ∷ text) (suc i) c e = ground (arith, get_char-drop text i c e)

drop-nil : (n : ℕ) → drop {A = ℕ} n [] ≡ []
drop-nil zero = refl
drop-nil (suc n) = refl

append_nil_right : (m rest : Bytes) → [] ≡ m ++ rest → rest ≡ []
append_nil_right [] rest e = sym e
append_nil_right (c ∷ m) rest e = cc

-- Behind a piece stands what follows it.
pub drop_past :
    (text m rest : Bytes) (i : ℕ) → drop i text ≡ m ++ rest → drop (i + length m) text ≡ rest
drop_past text m rest zero e = rw (zero-add, e) (drop_append m rest)
drop_past [] m rest (suc i) e = rw drop-nil (sym (append_nil_right m rest e))
drop_past (x ∷ text) m rest (suc i) e =
    let shift : suc i + length m ≡ suc (i + length m) = omega arith in
    rw shift (drop_past text m rest i e)

-- What stands before the cut is what was cut.
pub take-drop_front :
    (text m rest z : Bytes) (i : ℕ)
    → drop i text ≡ m ++ rest
    → take (length m) (drop i (text ++ z)) ≡ m
take-drop_front text m rest z zero e = rw (e, append_assoc m rest z) (take_append m (rest ++ z))
take-drop_front [] [] rest z (suc i) e = refl
take-drop_front [] (c ∷ m) rest z (suc i) e = cc
take-drop_front (x ∷ text) m rest z (suc i) e = take-drop_front text m rest z i e

-- The state at the beginning of a piece.
abbrev pub at_piece : HttpRequest → ParseStatus → ℕ → StringPiece → StringPiece → StringPiece → Scan
at_piece r st i m u v = record {
  request = r;
  status = st;
  current_pos = i;
  start_at = i;
  piece_len = 0;
  method_piece = m;
  url_piece = u;
  http_piece = v;
}

-- The piece of the bytes `m` that stand at `i`.
abbrev pub cut : HttpRequest → ℕ → Bytes → StringPiece
cut r i m = record { m_start = some (c_str r.m_request i); m_length = length m }

-- The bytes that a status takes into its piece.
abbrev pub IsPlain : ParseStatus → ℕ → Type 0
IsPlain method c = (c ≢ 0) × (c ≢ b' ')
IsPlain url c = (c ≢ 0) × (c ≢ b' ')
IsPlain http c = (c ≢ 0) × (c ≢ b'\r') × (c ≢ b'\n')
IsPlain header c = (c ≢ 0) × (c ≢ b'\r') × (c ≢ b'\n')
IsPlain _ c = ⊥

abbrev longer : Scan → ℕ → Scan
longer s n = record s { piece_len = s.piece_len + n; current_pos = s.current_pos + n }

step_in_plain : (st : ParseStatus) (s : Scan) (c : ℕ) → IsPlain st c → step_in st s c ≡ longer s 1
unfolding step_in
step_in_plain start s c p = absurd p
step_in_plain _ s c p = ground arith

plain-IsLive : (st : ParseStatus) (c : ℕ) → IsPlain st c → IsLive st
plain-IsLive start c p = tt
plain-IsLive finished c p = p
plain-IsLive error c p = p
plain-IsLive more_data c p = p
plain-IsLive _ c p = tt

-- A step at a byte that is known.
pub step_at :
    (s : Scan) (c : ℕ) {rest : Bytes}
    → drop s.current_pos s.request.m_request ≡ c ∷ rest
    → step s ≡ step_in s.status s c
unfolding step
step_at s c e = ap (step_in s.status s) (get_char-drop s.request.m_request s.current_pos c e)

-- Plain bytes make the piece longer.
pub Run-plain :
    (m rest : Bytes) (s : Scan)
    → All (IsPlain s.status) m
    → drop s.current_pos s.request.m_request ≡ m ++ rest
    → Run s (longer s (length m))
Run-plain [] rest s p e = Run-end here (ground arith)
Run-plain (c ∷ m) rest s p e = next (plain-IsLive s.status c p.0) (
    rw (step_at s c e ∙ step_in_plain s.status s c p.0) (
      Run-end
        (Run-plain m rest (longer s 1) p.1
          (drop_past s.request.m_request (c ∷ []) (m ++ rest) s.current_pos e))
        (ground arith)))

-- One step, at a byte that is known.
pub Run-step :
    {s t : Scan} (c : ℕ) (rest : Bytes)
    → IsLive s.status
    → drop s.current_pos s.request.m_request ≡ c ∷ rest
    → step_in s.status s c ≡ t
    → Run s t
Run-step {s} {t} c rest l e done =
    let reached : step s ≡ t = step_at s c e ∙ done in next l (Run-end here reached)

get_char_end : (text : Bytes) (i : ℕ) → drop i text ≡ [] → get_char text i ≡ 0
unfolding get_char
get_char_end [] i e = ground arith
get_char_end (x ∷ text) zero e = cc
get_char_end (x ∷ text) (suc i) e = ground (arith, get_char_end text i e)

-- One step at the end of the text.
pub Run-step_end :
    {s t : Scan}
    → IsLive s.status
    → drop s.current_pos s.request.m_request ≡ []
    → step_in s.status s 0 ≡ t
    → Run s t
unfolding step
Run-step_end {s} {t} l e done =
    let reached : step s ≡ t =
      ap (step_in s.status s) (get_char_end s.request.m_request s.current_pos e) ∙ done in
    next l (Run-end here reached)
