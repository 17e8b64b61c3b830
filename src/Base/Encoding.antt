-- ===== src/Base/Encoding.antt =====
-- `UTF16ToUTF8` (base/encoding.h, encoding.cpp). `wcstombs` is a parameter: its answer without a buffer,
-- and what it writes where it may write so many bytes.
use mod_server.Prelude.{
  ℕ, ◌+◌, ◌<◌, ◌≡◌, refl, true, inl, inr, Bool-cases, Option, none, some, [], ◌∷◌, arith, Bytes,
  length, replicate, leb, ◌==◌, if◌then◌else◌,
}
use mod_server.Prelude.Fault.{Result, ok, fault, bad_write, failed_assert, ◌>>=◌}
use mod_server.Prelude.Memory.{read_bytes, read_bytes-overlay, overlay, write_at}

pub record WideChars (Wide : Type 0) : Type 0 where
  -- `wcstombs(NULL, s, 0)`; `none` is -1.
  pub needed_length : Wide → Option ℕ
  -- The bytes that `wcstombs(buf, s, n)` writes.
  pub written : Wide → ℕ → Bytes

-- Documented behaviour: without a buffer the answer is the length of the converted text, and where there
-- may be as many bytes as that, they are written.
pub record WideLaws {Wide : Type 0} (lib : WideChars Wide) : Type 0 where
  pub encoded : Wide → Option Bytes
  pub fails : (s : Wide) → encoded s ≡ none → lib.needed_length s ≡ none
  pub measures : (s : Wide) (t : Bytes) → encoded s ≡ some t → lib.needed_length s ≡ some (length t)
  pub writes : (s : Wide) (t : Bytes) → encoded s ≡ some t → lib.written s (length t) ≡ t

abbrev pub stack_buf_size : ℕ
stack_buf_size = 120

-- `wcstombs` into a buffer.
unfoldable pub write_text : Bytes → Bytes → Result Bytes
write_text text buf =
    if leb (length text) (length buf) then ok (overlay text buf) else fault bad_write

-- The buffer: on the stack, all zeros, or on the heap with one byte more than needed, where `raw n` is
-- what `n` new bytes hold.
unfoldable pub buffer : (ℕ → Bytes) → ℕ → Bytes
buffer raw n = if leb stack_buf_size n then raw (n + 1) else replicate stack_buf_size 0

module _ {Wide : Type 0} (lib : WideChars Wide) where
  -- The conversion, once the length is known.
  unfoldable pub convert : (ℕ → Bytes) → Wide → ℕ → Result Bytes
  convert raw s n = do
    buf ← write_text (lib.written s n) (buffer raw n)
    ended ← write_at buf n 0
    read_bytes n ended

  -- The early return on 0 and -1, or the conversion.
  unfoldable pub converted : (ℕ → Bytes) → Wide → Option ℕ → Result Bytes
  converted raw s none = ok []
  converted raw s (some n) = let text = convert raw s n in if n == 0 then ok [] else text

  -- `UTF16ToUTF8`, on a pointer.
  unfoldable pub utf16_to_utf8 : (ℕ → Bytes) → Option Wide → Result Bytes
  utf16_to_utf8 raw none = fault failed_assert
  utf16_to_utf8 raw (some s) = converted raw s (lib.needed_length s)

abbrev pub or_nothing : Option Bytes → Bytes
or_nothing none = []
or_nothing (some t) = t

module _ {Wide : Type 0} {lib : WideChars Wide} (laws : WideLaws lib) (raw : ℕ → Bytes)
    (allocates : (n : ℕ) → length (raw n) ≡ n) where
  buffer_has_room : (n : ℕ) → n < length (buffer raw n)
  unfolding buffer
  buffer_has_room n = elim (Bool-cases (leb stack_buf_size n)) [
    | inl large ↦ rw large (omega (arith, allocates (n + 1)))
    | inr small ↦ rw small (ground arith)
  ]

  convert-encoded :
      (s : Wide) (t : Bytes) → laws.encoded s ≡ some t → convert lib raw s (length t) ≡ ok t
  unfolding convert write_text
  convert-encoded s t e =
      let room = buffer_has_room (length t) in
      let fits : leb (length t) (length (buffer raw (length t))) ≡ true = ground arith in
      rw (laws.writes s t e, fits) (read_bytes-overlay t (buffer raw (length t)) room)

  -- Whatever the length of the text, on either side of the size of the stack's buffer, the result is
  -- the whole encoded text, or the empty text where there is none, and no byte outside of the buffer is
  -- read or written. NULL fails the assertion.
  pub utf16_to_utf8-encoded :
      (s : Wide)
      → (utf16_to_utf8 lib raw (some s) ≡ ok (or_nothing (laws.encoded s)))
        × (utf16_to_utf8 lib raw none ≡ fault failed_assert)
  unfolding utf16_to_utf8 converted
  utf16_to_utf8-encoded s = (by_cases (laws.encoded s) refl, refl)
    where
      by_cases :
          (o : Option Bytes)
          → laws.encoded s ≡ o
          → converted lib raw s (lib.needed_length s) ≡ ok (or_nothing o)
      by_cases none e = rw (laws.fails s e) refl
      by_cases (some []) e = rw (laws.measures s [] e) refl
      by_cases (some (c ∷ t)) e =
          rw (laws.measures s (c ∷ t) e) (ground (arith, convert-encoded s (c ∷ t) e))
