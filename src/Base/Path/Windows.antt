-- ===== src/Base/Path/Windows.antt =====
-- `Path::Absolute` of the Windows build (base/path_win.cpp) beside that of the UNIX build.
use mod_server.Prelude.{
  ℕ, ◌*◌, ◌<◌, ◌≡◌, ◌≢◌, refl, ◌∙◌, ap, Option, none, some, [], ◌∷◌, ◌++◌, arith, Bytes, All,
  length, ltb, ◌==◌, if◌then◌else◌, replicate,
}
use mod_server.Prelude.Fault.{Result, ok, fault, bad_read, bad_write, ◌>>=◌}
use mod_server.Base.Path.{FilePath, or_empty_path, absolute, absolute-realpath}

-- `GetFullPathNameW`, a parameter: from the path, the size of the buffer and the buffer to the result and
-- what the buffer holds then.
abbrev pub GetFullPath : Type 0
GetFullPath = Bytes → ℕ → Bytes → ℕ × Bytes

-- What is documented of it: a path that fits is written with a NUL behind it, and the result is its
-- length; the result is 0 where there is none.
pub record FullPathLaws (call : GetFullPath) (full : Bytes → Option Bytes) : Type 0 where
  pub writes :
      (path text buf : Bytes)
      → full path ≡ some text
      → length text < length buf
      → (rest : Bytes) × (call path (length buf) buf ≡ (length text, text ++ 0 ∷ rest))
  pub fails : (path buf : Bytes) → full path ≡ none → (call path (length buf) buf).0 ≡ 0

-- `MAX_PATH*2`, with the MAX_PATH of Windows.
abbrev pub win_absolute_size : ℕ
win_absolute_size = 260 * 2

-- `StringType(buf)`: up to the NUL, which has to be there.
unfoldable pub text_of_buffer : Bytes → Result Bytes
text_of_buffer [] = fault bad_read
text_of_buffer (c ∷ buf) =
    let rest = text_of_buffer buf in if c == 0 then ok [] else (do text ← rest; ok (c ∷ text))

-- `Absolute`, from what the call gave.
unfoldable pub text_of_call : ℕ × Bytes → Result Bytes
unfolding text_of_buffer
text_of_call (res, buf) = let text = text_of_buffer buf in if ltb 0 res then text else ok []

-- `Absolute`.
unfoldable pub win_absolute : GetFullPath → FilePath → Result Bytes
unfolding text_of_call
win_absolute call p = text_of_call (call p.m_path win_absolute_size (replicate win_absolute_size 0))

text_of_buffer-append :
    (text rest : Bytes) → All (λ c. c ≢ 0) text → text_of_buffer (text ++ 0 ∷ rest) ≡ ok text
unfolding text_of_buffer
text_of_buffer-append [] rest p = refl
text_of_buffer-append (c ∷ text) rest p = ground (arith, text_of_buffer-append text rest p.1)

text_of_call_written :
    (text rest : Bytes)
    → All (λ c. c ≢ 0) text
    → text_of_call (length text, text ++ 0 ∷ rest) ≡ ok text
unfolding text_of_call
text_of_call_written [] rest p = refl
text_of_call_written (c ∷ text) rest p = ground (arith, text_of_buffer-append (c ∷ text) rest p)

text_of_call_failed : (answer : ℕ × Bytes) → answer.0 ≡ 0 → text_of_call answer ≡ ok []
unfolding text_of_call
text_of_call_failed (res, buf) e = ground (arith, e)

win_absolute-full :
    (call : GetFullPath) (full : Bytes → Option Bytes) (p : FilePath)
    → FullPathLaws call full
    → All (λ c. c ≢ 0) (or_empty_path (full p.m_path))
    → length (or_empty_path (full p.m_path)) < 520
    → win_absolute call p ≡ ok (or_empty_path (full p.m_path))
unfolding win_absolute
win_absolute-full call full p laws = by_cases (full p.m_path) refl
  where
    zeros : Bytes
    zeros = replicate win_absolute_size 0

    by_cases :
        (resolved : Option Bytes)
        → full p.m_path ≡ resolved
        → All (λ c. c ≢ 0) (or_empty_path resolved)
        → length (or_empty_path resolved) < 520
        → text_of_call (call p.m_path win_absolute_size zeros) ≡ ok (or_empty_path resolved)
    by_cases none e is_text short =
        text_of_call_failed (call p.m_path win_absolute_size zeros) (laws.fails p.m_path zeros e)
    by_cases (some text) e is_text short =
        let (rest, wrote) = laws.writes p.m_path text zeros e short in
        ap text_of_call wrote ∙ text_of_call_written text rest is_text

-- Where both systems resolve a path to the same text, with no NUL and at most 519 characters, `Absolute`
-- of the Windows build returns it, and that of the UNIX build does the same as long as there are at most
-- 511 of them, and writes past the end of its buffer where there are more. Where there is no such text
-- both return the empty one.
pub absolute-win_absolute :
    (call : GetFullPath) (full : Bytes → Option Bytes) (p : FilePath)
    → FullPathLaws call full
    → All (λ c. c ≢ 0) (or_empty_path (full p.m_path))
    → length (or_empty_path (full p.m_path)) < 520
    → (win_absolute call p ≡ ok (or_empty_path (full p.m_path)))
      × (absolute full p ≡ (
          if ltb (length (or_empty_path (full p.m_path))) 512
          then win_absolute call p
          else fault bad_write))
absolute-win_absolute call full p laws is_text short =
    let win = win_absolute-full call full p laws is_text short in
    (win, rw win (absolute-realpath full p))
