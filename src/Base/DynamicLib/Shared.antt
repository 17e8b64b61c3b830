-- ===== src/Base/DynamicLib/Shared.antt =====
-- `std::shared_ptr<DynamicLib>` over a store of libraries, with `~DynamicLib` (base/dynamic_lib.h,
-- dynamic_lib_unix.cpp).
use mathlib.Core.Path.{fun_ext}
use mod_server.Prelude.{
  ℕ, suc, ◌-◌, ◌≡◌, refl, ap, false, Option, none, some, List, [], ◌∷◌, ◌++◌, if◌then◌else◌, ◌==◌,
  arith,
}
use mod_server.Prelude.Fault.{Result, ok, fault, freed_pointer, ◌>>=◌}

-- A call of `dlopen` that gave a handle, or one of `dlclose`.
pub data DlCall (Handle : Type 0) : Type 0 where
  opened closed : Handle → DlCall Handle

-- The libraries that are alive, each with its handle and the number of its owners, the next pointer
-- that `new` gives, and the calls that were made.
pub record Libs (Handle : Type 0) : Type 0 where
  pub objects : ℕ → Option (Handle × ℕ)
  pub next : ℕ
  pub calls : List (DlCall Handle)

module _ {Handle : Type 0} where
  abbrev pub no_libs : Libs Handle
  no_libs = record { objects = λ p. none; next = 0; calls = [] }

  abbrev pub put : ℕ → Option (Handle × ℕ) → Libs Handle → Libs Handle
  put p x libs = record libs { objects = λ q. if p == q then x else libs.objects q }

  abbrev pub was_called : DlCall Handle → Libs Handle → Libs Handle
  was_called call libs = record libs { calls = libs.calls ++ call ∷ [] }

  abbrev pub deref_lib : Option (Handle × ℕ) → Result (Handle × ℕ)
  deref_lib none = fault freed_pointer
  deref_lib (some x) = ok x

  -- `std::shared_ptr<DynamicLib>(new DynamicLib(handle))`, behind `dlopen`; the pointer is `next`.
  unfoldable pub new_shared : Handle → Libs Handle → Libs Handle
  new_shared h libs =
      put libs.next (some (h, 1)) (record (was_called (opened h) libs) { next = suc libs.next })

  -- A copy of the pointer.
  unfoldable pub copy_shared : ℕ → Libs Handle → Result (Libs Handle)
  copy_shared p libs = do
    (h, owners) ← deref_lib (libs.objects p)
    ok (put p (some (h, suc owners)) libs)

  -- The end of one of its owners; with the last one the library is closed.
  unfoldable pub drop_shared : ℕ → Libs Handle → Result (Libs Handle)
  drop_shared p libs = do
    (h, owners) ← deref_lib (libs.objects p)
    ok (
        if owners == 1
        then put p none (was_called (closed h) libs)
        else put p (some (h, owners - 1)) libs)

  put-put :
      (p : ℕ) (x y : Option (Handle × ℕ)) (libs : Libs Handle)
      → put p x (put p y libs) ≡ put p x libs
  put-put p x y libs =
      ap (λ (f : ℕ → Option (Handle × ℕ)). record libs { objects = f }) (fun_ext λ q. ground arith)

  pub put_self :
      (p : ℕ) (x : Option (Handle × ℕ)) (libs : Libs Handle) → (put p x libs).objects p ≡ x
  put_self p x libs = ground arith

  pub copy_shared-put :
      (p owners : ℕ) (h : Handle) (libs : Libs Handle)
      → copy_shared p (put p (some (h, owners)) libs) ≡ ok (put p (some (h, suc owners)) libs)
  unfolding copy_shared
  copy_shared-put p owners h libs =
      rw (put_self p (some (h, owners)) libs)
        (ap ok (put-put p (some (h, suc owners)) (some (h, owners)) libs))

  pub drop_shared-put :
      (p k : ℕ) (h : Handle) (libs : Libs Handle)
      → drop_shared p (put p (some (h, suc (suc k))) libs) ≡ ok (put p (some (h, suc k)) libs)
  unfolding drop_shared
  drop_shared-put p k h libs =
      let more : (suc (suc k) == 1) ≡ false = ground arith in
      let less : suc (suc k) - 1 ≡ suc k = omega arith in
      rw (put_self p (some (h, suc (suc k))) libs, more, less)
        (ap ok (put-put p (some (h, suc k)) (some (h, suc (suc k))) libs))

  pub drop_shared_only :
      (p : ℕ) (h : Handle) (libs : Libs Handle)
      → libs.objects p ≡ some (h, 1)
      → drop_shared p libs ≡ ok (put p none (was_called (closed h) libs))
  unfolding drop_shared
  drop_shared_only p h libs e = rw e refl

  pub drop_shared-last :
      (p : ℕ) (h : Handle) (libs : Libs Handle)
      → drop_shared p (put p (some (h, 1)) libs) ≡ ok (put p none (was_called (closed h) libs))
  unfolding drop_shared
  drop_shared-last p h libs =
      rw (put_self p (some (h, 1)) libs)
        (ap ok (put-put p none (some (h, 1)) (was_called (closed h) libs)))
