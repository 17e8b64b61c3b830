-- ===== src/Prelude/Memory.antt =====
-- Pieces of memory: what a pointer points at, reading and writing bytes of it.
use Prim.Native.Nat.{ℕ, zero, suc, ◌≤◌, ◌<◌}
use mathlib.Core.Path.{◌≡◌, refl, ap, ◌∙◌}
use mathlib.Core.Bool.{true}
use mathlib.Core.Option.{Option, none, some}
use mathlib.Core.List.{[], ◌∷◌, ◌++◌}
use native.Mathlib.Omega.{arith}
use mod_server.Prelude.Tests.{ltb, lt→ltb, if◌then◌else◌}
use mod_server.Prelude.Lists.{
  Bytes, length, set, drop, take, length-append, length-drop, length-set,
}
use mod_server.Prelude.Fault.{Result, ok, fault, bad_read, bad_write, ◌>>=◌}

-- What a pointer points at: nothing, behind NULL.
abbrev pub memory : Option Bytes → Bytes
memory none = []
memory (some m) = m

-- `for (i = 0; i < n; i++) out[i] = m[i];`
unfoldable pub read_bytes : ℕ → Bytes → Result Bytes
read_bytes zero m = ok []
read_bytes (suc n) [] = fault bad_read
read_bytes (suc n) (c ∷ m) = do rest ← read_bytes n m; ok (c ∷ rest)

pub read_bytes-take : (n : ℕ) (m : Bytes) → n ≤ length m → read_bytes n m ≡ ok (take n m)
unfolding read_bytes
read_bytes-take zero m h = refl
read_bytes-take (suc n) [] h = absurd (omega arith)
read_bytes-take (suc n) (c ∷ m) h = rw (read_bytes-take n m (omega arith))

-- What `recv` leaves in a buffer.
abbrev pub overlay : Bytes → Bytes → Bytes
overlay text buf = text ++ drop (length text) buf

-- `buf[i] = v`.
unfoldable pub write_at : Bytes → ℕ → ℕ → Result Bytes
write_at buf i v = if ltb i (length buf) then ok (set buf i v) else fault bad_write

length-overlay :
    (text buf : Bytes) → length text ≤ length buf → length (overlay text buf) ≡ length buf
length-overlay text buf h =
    omega (arith, length-append text (drop (length text) buf), length-drop (length text) buf)

-- There is room for the NUL behind bytes that do not fill the buffer, which keeps its size.
pub write_at-overlay :
    (text buf : Bytes) (n : ℕ)
    → length text ≡ n
    → n < length buf
    → (buf' : Bytes) × (write_at (overlay text buf) n 0 ≡ ok buf') × (length buf' ≡ length buf)
unfolding write_at
write_at-overlay text buf n len room =
    let kept = length-overlay text buf (omega arith) in
    (set (overlay text buf) n 0, ground (arith, kept), length-set (overlay text buf) n 0 ∙ kept)

take-set :
    (text rest : Bytes) (v : ℕ) → take (length text) (set (text ++ rest) (length text) v) ≡ text
take-set [] rest v = refl
take-set (c ∷ text) rest v = ap (◌∷◌ c) (take-set text rest v)

-- A text that is shorter than the buffer, with a NUL behind it, is read back.
pub read_bytes-overlay :
    (text buf : Bytes)
    → length text < length buf
    → (write_at (overlay text buf) (length text) 0 >>= read_bytes (length text)) ≡ ok text
unfolding write_at
read_bytes-overlay text buf room =
    let rest = drop (length text) buf in
    let kept = length-overlay text buf (omega arith) in
    let fits : length text ≤ length (set (overlay text buf) (length text) 0) =
      omega (arith, length-set (overlay text buf) (length text) 0) in
    let is_less : ltb (length text) (length (overlay text buf)) ≡ true = lt→ltb _ _ (omega arith) in
    rw (is_less, read_bytes-take (length text) _ fits, take-set text rest 0) refl
