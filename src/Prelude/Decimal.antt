-- ===== src/Prelude/Decimal.antt =====
-- `std::to_string` of an unsigned number, and the number that digits stand for.
use Prim.Native.Nat.{ℕ, zero, suc, ◌+◌, ◌-◌, ◌*◌, ◌/◌, ◌%◌, ◌<◌}
use mathlib.Core.Path.{◌≡◌, ap, ◌∙◌}
use mathlib.Core.Logic.{inl, inr}
use mathlib.Core.List.{List, [], ◌∷◌}
use native.Mathlib.Omega.{arith}
use mod_server.Prelude.Tests.{ltb, Bool-cases, if◌then◌else◌}

-- The digits of `n` in front of `acc`, least first. One round for each digit: `n + 1` is enough.
digits_onto : ℕ → ℕ → List ℕ → List ℕ
digits_onto zero n acc = acc
digits_onto (suc f) n acc =
    let rest = digits_onto f (n / 10) ((b'0' + n % 10) ∷ acc) in
    if ltb n 10 then (b'0' + n) ∷ acc else rest

unfoldable pub to_string : ℕ → List ℕ
unfolding digits_onto
to_string n = digits_onto (suc n) n []

-- The number read from left to right, behind `n`.
abbrev pub value : ℕ → List ℕ → ℕ
value n [] = n
value n (d ∷ ds) = value (n * 10 + (d - b'0')) ds

value-digits_onto : (f n : ℕ) (acc : List ℕ) → n < f → value 0 (digits_onto f n acc) ≡ value n acc
unfolding digits_onto
value-digits_onto zero n acc h = elim h [ ]
value-digits_onto (suc f) n acc h = elim (Bool-cases (ltb n 10)) [
  | inl small ↦ rw small (ap (λ (k : ℕ). value k acc) last)
  | inr large ↦
      rw large (value-digits_onto f (n / 10) _ (ground arith) ∙ ap (λ (k : ℕ). value k acc) split)
]
  where
    last : 0 * 10 + (b'0' + n - b'0') ≡ n
    last = omega arith

    split : n / 10 * 10 + (b'0' + n % 10 - b'0') ≡ n
    split = omega arith

-- Reading back what was printed gives the number.
pub value-to_string : (n : ℕ) → value 0 (to_string n) ≡ n
unfolding to_string
value-to_string n = value-digits_onto (suc n) n [] (omega arith)
