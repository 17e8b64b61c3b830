-- ===== src/Tests/Base.antt =====
-- A concrete command line.
use mod_server.Prelude.{◌≡◌, ◌≢◌, ◌↔◌, true, none, some, List, [], ◌∷◌, ◌++◌, arith, Bytes}
use mod_server.Prelude.Text.{codes}
use mod_server.Base.CommandLine.{
  CommandLine, init_from_string_vec, has_switch, switch_value, or_empty, parse_switch,
  switch_prefix, value_separator,
}
use mod_server.Base.CommandLine.Switches.{
  first_value, switch_value-init_from_string_vec, parse_switch-parts,
}

abbrev given : List Bytes
given = codes "x" ∷ codes "-serverIp=127.0.0.1" ∷ codes "-quiet" ∷ codes "-serverIp=10.0.0.1" ∷ []

abbrev before : CommandLine
before = record { m_switches = (codes "old", []) ∷ [] }

switch_value-init_from_string_vec_example :
    (switch_value (init_from_string_vec given before) (codes "serverIp")
      ≡ or_empty (first_value (codes "serverIp") given))
    × ((has_switch (init_from_string_vec given before) (codes "serverIp") ≡ true)
        ↔ (first_value (codes "serverIp") given ≢ none))
switch_value-init_from_string_vec_example =
    switch_value-init_from_string_vec given before (codes "serverIp")

parse_switch-parts_example :
    (parse_switch (switch_prefix ∷ codes "a" ++ (value_separator ∷ codes "b=c"))
      ≡ some (codes "a", codes "b=c"))
    × (parse_switch (switch_prefix ∷ codes "a") ≡ some (codes "a", []))
parse_switch-parts_example = parse_switch-parts (codes "a") (codes "b=c") (ground arith)

first_wins : switch_value (init_from_string_vec given before) (codes "serverIp") ≡ codes "127.0.0.1"
unfolding parse_switch
first_wins = switch_value-init_from_string_vec_example.0
