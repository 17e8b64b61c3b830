-- ===== src/Prelude/Fault.antt =====
-- The outcome of code that may go wrong: what C++ leaves undefined, a failed assert or an exception
-- ends the run with a fault.
use mathlib.Core.Bool.{Bool, true, false}
use mathlib.Core.Path.{◌≡◌, refl}

pub data Fault : Type 0 where
  bad_read bad_write null_pointer freed_pointer failed_assert thrown overflow out_of_fuel : Fault

pub data Result {ℓ} (A : Type ℓ) : Type ℓ where
  ok : A → Result A
  fault : Fault → Result A

-- `assert(b)` in a build without NDEBUG, as the build files give it.
abbrev pub assert : Bool → Result (Unit {0})
assert true = ok tt
assert false = fault failed_assert

abbrev pub Returns {ℓ} : {A : Type ℓ} → Result A → Type ℓ
Returns {A} m = (a : A) × (m ≡ ok a)

infixl 5 ◌>>=◌ ◌>>◌
abbrev pub ◌>>=◌ {ℓ κ} :
    {Before : Type ℓ} {After : Type κ} → Result Before → (Before → Result After) → Result After
fault why >>= further = fault why
ok value >>= further = further value

abbrev pub ◌>>◌ {ℓ} : {After : Type ℓ} → Result (Unit {0}) → Result After → Result After
done >> further = done >>= λ (u : Unit {0}). further

pub >>=-Returns {ℓ κ} :
    {A : Type ℓ} {B : Type κ} (m : Result A) (f : A → Result B)
    → Returns m
    → ((a : A) → Returns (f a))
    → Returns (m >>= f)
>>=-Returns (ok a) f r k = k a
>>=-Returns (fault e) f (a, r) k = absurd (cc)

-- Two steps of a block, then the rest: the result, from the result of the two.
pub >>=-chain {ℓ} :
    {A B C : Type ℓ} (m : Result A) (f : A → Result B) (g : B → Result C) {b : B} {c : C}
    → (m >>= f) ≡ ok b
    → g b ≡ ok c
    → (m >>= λ a. f a >>= g) ≡ ok c
>>=-chain (ok a) f g e h = rw e h
>>=-chain (fault x) f g e h = absurd (cc)

pub >>=_assoc {ℓ} :
    {First Second Third : Type ℓ} (m : Result First) (f : First → Result Second)
    (g : Second → Result Third)
    → ((m >>= f) >>= g) ≡ (m >>= λ a. f a >>= g)
>>=_assoc (fault why) f g = refl
>>=_assoc (ok value) f g = refl

pub >>=_same {ℓ} :
    {First Second : Type ℓ} (m : Result First) {f g : First → Result Second}
    → ((a : First) → f a ≡ g a)
    → (m >>= f) ≡ (m >>= g)
>>=_same (fault why) same = refl
>>=_same (ok value) same = same value

-- A block that returned: its first step returned, and so did the rest.
pub >>=-ok {ℓ κ} :
    {Before : Type ℓ} {After : Type κ} (m : Result Before) (f : Before → Result After) {b : After}
    → (m >>= f) ≡ ok b
    → (a : Before) × (m ≡ ok a) × (f a ≡ ok b)
>>=-ok (ok a) f h = (a, refl, h)
>>=-ok (fault why) f h = absurd (cc)
