-- ===== src/Base/CommandLine/Switches.antt =====
-- Which value a switch has: that of the first parameter that names it.
use mod_server.Prelude.{
  ℕ, suc, ◌+◌, ◌≡◌, ◌≢◌, refl, sym, ap, ◌∙◌, true, Option, none, some, List, [], ◌∷◌, ◌++◌,
  if◌then◌else◌, arith, Bytes, bytes_eq, drop, length, All, Bool-cases, Option-cases, inl, inr, ◌↔◌,
  take_append,
}
use mod_server.Base.CommandLine.{
  CommandLine, Switches, lookup, insert, find_byte, split_switch, parse_switch, add_param,
  add_params, init_from_string_vec, has_switch, switch_value, or_empty, switch_prefix,
  value_separator,
}

bytes_eq_sound : (a b : Bytes) → bytes_eq a b ≡ true → a ≡ b
bytes_eq_sound [] [] e = refl
bytes_eq_sound [] (y ∷ b) e = cc
bytes_eq_sound (x ∷ a) [] e = cc
bytes_eq_sound (x ∷ a) (y ∷ b) e = ground (arith, bytes_eq_sound a b)

-- The first value, else the second.
abbrev pub first_of : Option Bytes → Option Bytes → Option Bytes
first_of none later = later
first_of (some v) later = some v

-- The value that a single parameter gives to a switch.
abbrev pub value_in : Bytes → Option (Bytes × Bytes) → Option Bytes
value_in k none = none
value_in k (some (n, v)) = if bytes_eq n k then some v else none

-- The value of the first parameter that names the switch.
abbrev pub first_value : Bytes → List Bytes → Option Bytes
first_value k [] = none
first_value k (p ∷ ps) = first_of (value_in k (parse_switch p)) (first_value k ps)

first_of-none : (o : Option Bytes) → first_of o none ≡ o
first_of-none none = refl
first_of-none (some v) = refl

first_of_assoc : (a b c : Option Bytes) → first_of (first_of a b) c ≡ first_of a (first_of b c)
first_of_assoc none b c = refl
first_of_assoc (some v) b c = refl

lookup-insert :
    (k n v : Bytes) (m : Switches)
    → lookup k (insert n v m) ≡ first_of (lookup k m) (value_in k (some (n, v)))
unfolding lookup insert
lookup-insert k n v m = elim (Bool-cases (bytes_eq n k)) [
  | inl same ↦
      let key : n ≡ k = bytes_eq_sound n k same in
      elim (Option-cases (lookup n m)) [
        | inl new ↦ let new_k = rw key at new in rw (new, same, new_k) refl
        | inr (old, e) ↦ let e_k = rw key at e in rw (e, e_k) refl
      ]
  | inr other ↦ elim (Option-cases (lookup n m)) [
    | inl new ↦ rw (new, other) (sym (first_of-none (lookup k m)))
    | inr (old, e) ↦ rw (e, other) (sym (first_of-none (lookup k m)))
  ]
]

lookup-add_param :
    (k p : Bytes) (m : Switches)
    → lookup k (add_param p m) ≡ first_of (lookup k m) (value_in k (parse_switch p))
unfolding add_param
lookup-add_param k p m = elim (Option-cases (parse_switch p)) [
  | inl none_there ↦ rw none_there (sym (first_of-none (lookup k m)))
  | inr ((n, v), e) ↦ rw e (lookup-insert k n v m)
]

lookup-add_params :
    (k : Bytes) (ps : List Bytes) (m : Switches)
    → lookup k (add_params ps m) ≡ first_of (lookup k m) (first_value k ps)
unfolding add_params
lookup-add_params k [] m = sym (first_of-none (lookup k m))
lookup-add_params k (p ∷ ps) m =
    lookup-add_params k ps (add_param p m)
    ∙ ap (λ o. first_of o (first_value k ps)) (lookup-add_param k p m)
    ∙ first_of_assoc (lookup k m) (value_in k (parse_switch p)) (first_value k ps)

-- After `InitFromStringVec` the value of a switch is that of the first parameter that names it, and
-- empty if there is none, whatever the switches were before; the switch is there exactly if one is.
pub switch_value-init_from_string_vec :
    (params : List Bytes) (cl : CommandLine) (k : Bytes)
    → (switch_value (init_from_string_vec params cl) k ≡ or_empty (first_value k params))
      × ((has_switch (init_from_string_vec params cl) k ≡ true) ↔ (first_value k params ≢ none))
unfolding switch_value has_switch init_from_string_vec lookup
switch_value-init_from_string_vec params cl k =
    let found : lookup k (add_params params []) ≡ first_value k params =
      lookup-add_params k params [] in
    elim (Option-cases (first_value k params)) [
      | inl no_value ↦
          (rw (found, no_value) refl, rw (found, no_value) (λ e. cc, λ ne. absurd (ne refl)))
      | inr (v, e) ↦ (rw (found, e) refl, rw (found, e) (λ t. (λ f. cc), λ ne. refl))
    ]

find_byte-append :
    (c : ℕ) (xs rest : Bytes)
    → All (λ x. x ≢ c) xs
    → find_byte c (xs ++ c ∷ rest) ≡ some (length xs)
unfolding find_byte
find_byte-append c [] rest p = ground arith
find_byte-append c (x ∷ xs) rest p = ground (arith, find_byte-append c xs rest p.1)

find_byte-none : (c : ℕ) (xs : Bytes) → All (λ x. x ≢ c) xs → find_byte c xs ≡ none
unfolding find_byte
find_byte-none c [] p = refl
find_byte-none c (x ∷ xs) p = ground (arith, find_byte-none c xs p.1)

drop_after : (c : ℕ) (xs rest : Bytes) → drop (length xs + 1) (xs ++ c ∷ rest) ≡ rest
drop_after c [] rest = refl
drop_after c (x ∷ xs) rest = ground (arith, drop_after c xs rest)

split_switch-render :
    (name value : Bytes)
    → split_switch (switch_prefix ∷ name ++ (value_separator ∷ value)) (some (suc (length name)))
      ≡ (name, value)
unfolding split_switch
split_switch-render name value =
    ground
      (arith, take_append name (value_separator ∷ value), drop_after value_separator name value)

-- A switch that is written out with its value is parsed back, if its name has no `=`; the value may
-- hold anything. Without a `=` the value is empty.
pub parse_switch-parts :
    (name value : Bytes)
    → All (λ c. c ≢ value_separator) name
    → (parse_switch (switch_prefix ∷ name ++ (value_separator ∷ value)) ≡ some (name, value))
      × (parse_switch (switch_prefix ∷ name) ≡ some (name, []))
unfolding parse_switch find_byte split_switch
parse_switch-parts name value p = (
  rw (find_byte-append value_separator name value p) (ap some (split_switch-render name value)),
  rw (find_byte-none value_separator name p) refl,
)
