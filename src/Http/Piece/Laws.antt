-- ===== src/Http/Piece/Laws.antt =====
-- A piece whose bytes can be read is as good as the bytes: printing it and comparing it never fault.
use mod_server.Prelude.Memory.{memory, read_bytes-take}
use mod_server.Prelude.{
  ℕ, zero, suc, ◌≤◌, ◌≡◌, refl, ◌≢◌, true, false, inl, inr, [], ◌∷◌, ◌++◌, ap, ◌∙◌, arith, ◌==◌,
  if◌then◌else◌, Bool-cases, Bytes, length, take, bytes_eq, length-take, length-append, take_append,
  ==_iff, sym,
}
use mod_server.Prelude.Fault.{ok}
use mod_server.Prelude.Text.{codes}
use mod_server.Http.Piece.{
  StringPiece, literal, to_string, same_bytes, piece_eq, RequestMethod, get, invalid_method,
  method_from_string_piece, HttpVersion, http_1_0, http_1_1, invalid_version,
  http_ver_from_string_piece,
}

abbrev pub IsReadable : StringPiece → Type 0
IsReadable p = p.m_length ≤ length (memory p.m_start)

-- The bytes that a piece stands for.
abbrev pub contents : StringPiece → Bytes
contents p = take p.m_length (memory p.m_start)

pub to_string-contents : (p : StringPiece) → IsReadable p → to_string p ≡ ok (contents p)
unfolding to_string
to_string-contents p h = ground (arith, read_bytes-take p.m_length (memory p.m_start) h)

same_bytes-bytes_eq :
    (n : ℕ) (a b : Bytes)
    → n ≤ length a
    → n ≤ length b
    → same_bytes n a b ≡ ok (bytes_eq (take n a) (take n b))
unfolding same_bytes
same_bytes-bytes_eq zero a b ha hb = refl
same_bytes-bytes_eq (suc n) [] b ha hb = absurd (omega arith)
same_bytes-bytes_eq (suc n) (x ∷ a) [] ha hb = absurd (omega arith)
same_bytes-bytes_eq (suc n) (x ∷ a) (y ∷ b) ha hb = ground (arith, same_bytes-bytes_eq n a b)

length_ne-bytes_eq : (a b : Bytes) → length a ≢ length b → bytes_eq a b ≡ false
length_ne-bytes_eq [] [] h = absurd (h refl)
length_ne-bytes_eq [] (y ∷ b) h = refl
length_ne-bytes_eq (x ∷ a) [] h = refl
length_ne-bytes_eq (x ∷ a) (y ∷ b) h = ground (arith, length_ne-bytes_eq a b (λ e. h (ap suc e)))

pub bytes_eq_refl : (a : Bytes) → bytes_eq a a ≡ true
bytes_eq_refl [] = refl
bytes_eq_refl (x ∷ a) = ground (arith, bytes_eq_refl a)

pub bytes_eq-eq : (a b : Bytes) → bytes_eq a b ≡ true → a ≡ b
bytes_eq-eq [] [] h = refl
bytes_eq-eq [] (y ∷ b) h = cc
bytes_eq-eq (x ∷ a) [] h = cc
bytes_eq-eq (x ∷ a) (y ∷ b) h = ground (arith, bytes_eq-eq a b)

-- A literal as a piece.
abbrev literal_piece : Bytes → StringPiece
literal_piece l = record { m_start = literal l; m_length = length l }

-- Comparing with a literal compares the bytes.
piece_eq-bytes_eq :
    (p : StringPiece) (l : Bytes)
    → IsReadable p
    → piece_eq p (literal_piece l) ≡ ok (bytes_eq l (contents p))
unfolding piece_eq
piece_eq-bytes_eq p l h = elim (Bool-cases (length l == p.m_length)) [
  | inl same ↦ rw same (
      same_bytes-bytes_eq p.m_length (l ++ 0 ∷ []) (memory p.m_start)
        (omega (arith, (==_iff (length l) p.m_length).0 same, length-append l (0 ∷ []))) h
      ∙ ap (λ (t : Bytes). ok (bytes_eq t (contents p))) (cut ((==_iff _ _).0 same)))
  | inr other ↦ rw other (ap ok (sym (length_ne-bytes_eq l (contents p) (differ other))))
]
  where
    cut : length l ≡ p.m_length → take p.m_length (l ++ 0 ∷ []) ≡ l
    cut e = rw (← e) (take_append l (0 ∷ []))

    differ : (length l == p.m_length) ≡ false → length l ≢ length (contents p)
    differ other = ground (arith, length-take p.m_length (memory p.m_start))

-- Which method and which version the bytes name.
abbrev pub method_named : Bytes → RequestMethod
method_named t = if bytes_eq (codes "GET") t then get else invalid_method

abbrev pub version_named : Bytes → HttpVersion
version_named t =
    if bytes_eq (codes "HTTP/1.1") t
    then http_1_1
    else if bytes_eq (codes "HTTP/1.0") t
    then http_1_0
    else invalid_version

pub method_from_string_piece_lem :
    (p : StringPiece) → IsReadable p → method_from_string_piece p ≡ ok (method_named (contents p))
unfolding method_from_string_piece
method_from_string_piece_lem p h = rw (piece_eq-bytes_eq p (codes "GET") h)

pub http_ver_from_string_piece_lem :
    (p : StringPiece)
    → IsReadable p
    → http_ver_from_string_piece p ≡ ok (version_named (contents p))
unfolding http_ver_from_string_piece
http_ver_from_string_piece_lem p h =
    ground
      (arith, piece_eq-bytes_eq p (codes "HTTP/1.1") h, piece_eq-bytes_eq p (codes "HTTP/1.0") h)
