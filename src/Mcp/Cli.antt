-- ===== src/Mcp/Cli.antt =====
-- `parseArgs`, src/mcp/cli.ts: the options of a command line.
pub mod Printed
mod Tests
use aria_bridge.Prelude.{
  ℕ, ◌==◌, Bool, false, true, ◌||◌, Text, text, text_eq, includes, if◌then◌else◌, Option, none,
  some, List, [], ◌∷◌,
}
use aria_bridge.Value.{Number, nan}
use aria_bridge.Mcp.Config.{McpOptions}

-- The options, the message of the error that was thrown, or the end of the process after the help.
pub data Outcome : Type 0 where
  given : McpOptions → Outcome
  fails : Text → Outcome
  exits : Outcome

abbrev pub no_options : McpOptions
no_options = record {
  workspace_path = none;
  host_url = none;
  secret = none;
  client_id = none;
  buffer_size = none;
  debug = false;
  levels = none;
  capabilities = none;
  llm_filter = none;
}

-- Put a unit before the first part.
abbrev pub prepend : ℕ → List Text → List Text
prepend c [] = (c ∷ []) ∷ []
prepend c (part ∷ parts) = (c ∷ part) ∷ parts

-- `s.split(',')`.
unfoldable pub split_commas : Text → List Text
split_commas [] = [] ∷ []
split_commas (c ∷ s) = let parts = split_commas s in if c == 44 then [] ∷ parts else prepend c parts

-- The options that take the next argument.
abbrev pub valued : List Text
valued =
    text "--workspace"
    ∷ text "-w"
    ∷ text "--url"
    ∷ text "--secret"
    ∷ text "--client-id"
    ∷ text "--levels"
    ∷ text "--capabilities"
    ∷ text "--llm-filter"
    ∷ text "--buffer-size"
    ∷ []

unfoldable pub then_read : Outcome → (McpOptions → Outcome) → Outcome
then_read (given o) rest = rest o
then_read (fails message) rest = fails message
then_read exits rest = exits

-- `argv[++i].split(',')` of a value that may be missing, set by a function.
unfoldable pub split_value : Text → Option Text → (Option (List Text) → McpOptions) → Outcome
split_value refusal none set = fails refusal
split_value refusal (some v) set = given (set (some (split_commas v)))

abbrev pub number_of : (Text → Number) → Option Text → Number
number_of to_number none = nan
number_of to_number (some v) = to_number v

-- One turn of the loop, with the next argument. `Number` of a text and the message of the error that
-- `undefined.split` throws are parameters.
unfoldable pub read_option : (Text → Number) → Text → Text → Option Text → McpOptions → Outcome
read_option to_number refusal arg value o =
    if text_eq arg (text "--workspace") || text_eq arg (text "-w")
    then given (record o { workspace_path = value })
    else if text_eq arg (text "--url")
    then given (record o { host_url = value })
    else if text_eq arg (text "--secret")
    then given (record o { secret = value })
    else if text_eq arg (text "--client-id")
    then given (record o { client_id = value })
    else if text_eq arg (text "--levels")
    then split_value refusal value (λ parts. record o { levels = parts })
    else if text_eq arg (text "--capabilities")
    then split_value refusal value (λ parts. record o { capabilities = parts })
    else if text_eq arg (text "--llm-filter")
    then given (record o { llm_filter = value })
    else if text_eq arg (text "--buffer-size")
    then given (record o { buffer_size = some (number_of to_number value) })
    else if text_eq arg (text "--debug")
    then given (record o { debug = true })
    else if text_eq arg (text "--help") || text_eq arg (text "-h")
    then exits
    else given o

-- `parseArgs`, from the options so far.
unfoldable pub parse_args : (Text → Number) → Text → List Text → McpOptions → Outcome
parse_args to_number refusal [] o = given o
parse_args to_number refusal (arg ∷ []) o = read_option to_number refusal arg none o
parse_args to_number refusal (arg ∷ next ∷ rest) o =
    let after = parse_args to_number refusal rest in
    let here = parse_args to_number refusal (next ∷ rest) in
    then_read (read_option to_number refusal arg (some next) o)
      (if includes valued arg then after else here)
