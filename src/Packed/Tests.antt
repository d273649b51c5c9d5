-- ===== src/Packed/Tests.antt =====
-- A delta with a copy and some data.
use gitus.Prelude.{List, [], ◌∷◌, ◌++◌, codes, ◌≡◌, refl, arith, some, done, All}
use gitus.Packed.{DeltaCommand, copy, data_of, delta_commands, parse_delta_command_list}
use gitus.Packed.Delta.{encode_all, IsEncodable}
use gitus.Packed.Numbers.{delta_commands-encode_all}

abbrev commands : List DeltaCommand
commands = copy 43981 65536 ∷ data_of (codes "new") ∷ copy 0 300 ∷ []

commands-IsEncodable : All IsEncodable commands
commands-IsEncodable = (
  (omega arith, omega arith, omega arith),
  (omega arith, ((omega arith, omega arith, omega arith), tt)),
)

delta_commands-encode_all_example :
    delta_commands ((172 ∷ 2 ∷ []) ++ ((5 ∷ []) ++ encode_all commands)) ≡ done (some commands)
delta_commands-encode_all_example =
    delta_commands-encode_all 44 5 (2 ∷ []) [] commands (omega arith, (omega arith, tt))
      (omega arith, tt) commands-IsEncodable

-- The example of the comment in delta.go: the bytes of the offset are its first and third.
third_byte :
    parse_delta_command_list (133 ∷ 205 ∷ 171 ∷ []) ≡ done (some (copy 11206861 65536 ∷ []))
unfolding parse_delta_command_list
third_byte = refl
