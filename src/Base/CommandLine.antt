-- ===== src/Base/CommandLine.antt =====
-- `CommandLine` (base/command_line.h, command_line.cpp), the UNIX build.
pub mod Switches
use mod_server.Prelude.{
  ℕ, zero, suc, ◌+◌, ◌-◌, Bool, true, false, not, ◌&&◌, Option, none, some, List, [], ◌∷◌, ◌==◌,
  if◌then◌else◌, Bytes, bytes_eq, take, drop,
}
use mod_server.Prelude.Int.{ℤ, pos, negsuc}
use mod_server.Prelude.Fault.{Result, ok, fault, bad_read, assert, ◌>>=◌, ◌>>◌}

-- `std::map`: the keys are distinct, and their order is not used.
abbrev pub Switches : Type 0
Switches = List (Bytes × Bytes)

pub record CommandLine : Type 0 where
  pub m_switches : Switches

-- `find` of a map.
unfoldable pub lookup : Bytes → Switches → Option Bytes
lookup k [] = none
lookup k ((n, v) ∷ m) = if bytes_eq n k then some v else lookup k m

abbrev insert_beside : Option Bytes → Bytes → Bytes → Switches → Switches
insert_beside (some old) n v m = m
insert_beside none n v m = (n, v) ∷ m

-- `insert` of a map: a key that is there keeps its value.
unfoldable pub insert : Bytes → Bytes → Switches → Switches
insert n v m = insert_beside (lookup n m) n v m

abbrev pub switch_prefix : ℕ
switch_prefix = b'-'

abbrev pub value_separator : ℕ
value_separator = b'='

-- `command.find(c)`.
unfoldable pub find_byte : ℕ → Bytes → Option ℕ
find_byte c [] = none
find_byte c (x ∷ text) =
    let further : Option ℕ = (elim (find_byte c text) [ none ↦ none | some i ↦ some (suc i) ]) in
    if x == c then some 0 else further

-- What follows the test on the prefix; `value->empty()` changes nothing.
unfoldable pub split_switch : Bytes → Option ℕ → Bytes × Bytes
split_switch command none = (drop 1 command, [])
split_switch command (some separator_pos) =
    (take (separator_pos - 1) (drop 1 command), drop (separator_pos + 1) command)

-- `ParseSwitch`: the switch and its value, where the result is true.
unfoldable pub parse_switch : Bytes → Option (Bytes × Bytes)
unfolding find_byte split_switch
parse_switch [] = none
parse_switch (c ∷ rest) =
    if c == switch_prefix
    then some (split_switch (c ∷ rest) (find_byte value_separator (c ∷ rest)))
    else none

abbrev insert_parsed : Option (Bytes × Bytes) → Switches → Switches
insert_parsed none m = m
insert_parsed (some (n, v)) m = insert n v m

-- One round of the loop of `InitFromStringVec`.
unfoldable pub add_param : Bytes → Switches → Switches
add_param param m = insert_parsed (parse_switch param) m

unfoldable pub add_params : List Bytes → Switches → Switches
add_params [] m = m
add_params (p ∷ ps) m = add_params ps (add_param p m)

-- `InitFromStringVec`.
unfoldable pub init_from_string_vec : List Bytes → CommandLine → CommandLine
init_from_string_vec params cl = record { m_switches = add_params params [] }

abbrev is_there : Option Bytes → Bool
is_there none = false
is_there (some v) = true

abbrev pub or_empty : Option Bytes → Bytes
or_empty none = []
or_empty (some v) = v

-- `HasSwitch`.
unfoldable pub has_switch : CommandLine → Bytes → Bool
has_switch cl name = is_there (lookup name cl.m_switches)

-- `SwitchValue`.
unfoldable pub switch_value : CommandLine → Bytes → Bytes
switch_value cl name = or_empty (lookup name cl.m_switches)

-- The first so many of the arguments, `argv[1]` and on.
unfoldable pub read_args : ℕ → List Bytes → Result (List Bytes)
read_args zero args = ok []
read_args (suc n) [] = fault bad_read
read_args (suc n) (a ∷ args) = do rest ← read_args n args; ok (a ∷ rest)

abbrev params_count : ℤ → ℕ
params_count (pos n) = n - 1
params_count (negsuc n) = 0

abbrev is_set : ℤ → Option (List Bytes) → Bool
is_set (pos zero) argv = false
is_set argc none = false
is_set argc (some args) = true

abbrev arguments : Option (List Bytes) → List Bytes
arguments none = []
arguments (some args) = drop 1 args

-- `InitFromArgv`.
unfoldable pub init_from_argv : ℤ → Option (List Bytes) → CommandLine → Result CommandLine
init_from_argv argc argv cl = do
  assert (is_set argc argv)
  params ← read_args (params_count argc) (arguments argv)
  ok (init_from_string_vec params cl)

-- `Init`, on the static pointer to the command line of the process.
unfoldable pub init :
    Option CommandLine → ℤ → Option (List Bytes) → Result (Bool × Option CommandLine)
init (some cl) argc argv = ok (false, some cl)
init none argc argv = do
  cl ← init_from_argv argc argv (record { m_switches = [] })
  ok (true, some cl)

-- `ForCurrentProcess`.
unfoldable pub for_current_process : Option CommandLine → Result CommandLine
for_current_process none = do assert false; fault bad_read
for_current_process (some cl) = ok cl
