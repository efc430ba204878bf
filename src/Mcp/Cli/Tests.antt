-- ===== src/Mcp/Cli/Tests.antt =====
-- `parseArgs` at concrete arguments.
use aria_bridge.Prelude.{false, true, Text, text, text_eq, includes, some, [], ◌∷◌, ◌≡◌, refl}
use aria_bridge.Value.{Number, finite, nan}
use aria_bridge.Mcp.Config.{McpOptions}
use aria_bridge.Mcp.Cli.{
  given, fails, exits, no_options, split_commas, then_read, split_value, read_option, parse_args,
}
use aria_bridge.Mcp.Cli.Printed.{
  has_comma, IsList, last, more, command_line, numbered, parse_args-command_line,
}

code : Unit {0}
unfolding text_eq includes split_commas then_read split_value read_option parse_args
code = tt

abbrev to_number : Text → Number
to_number t = finite false 7 0

abbrev refusal : Text
refusal = text "no split"

-- Without a list after it, the option for levels fails; without a number, the size is none.
ends :
    (parse_args to_number refusal (text "--debug" ∷ text "--levels" ∷ []) no_options
      ≡ fails refusal)
    × (parse_args to_number refusal (text "--buffer-size" ∷ []) no_options
        ≡ given (record no_options { buffer_size = some nan }))
    × (parse_args to_number refusal (text "x" ∷ text "-h" ∷ text "--levels" ∷ []) no_options
        ≡ exits)
unfolding code
ends = (refl, refl, refl)

abbrev asked : McpOptions
asked = record no_options {
  host_url = some (text "ws://h");
  debug = true;
  levels = some (text "errors" ∷ text "warn" ∷ []);
}

two_levels : IsList (text "errors" ∷ text "warn" ∷ [])
unfolding has_comma
two_levels = more refl (last refl)

parse_args-command_line_example :
    parse_args to_number refusal (command_line asked (some (text "7"))) no_options
    ≡ given (record asked { buffer_size = numbered to_number (some (text "7")) })
parse_args-command_line_example =
    parse_args-command_line to_number refusal asked (some (text "7")) two_levels tt
