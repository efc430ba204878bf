-- ===== src/Mcp/Validation/Tests.antt =====
-- The arguments of the tools at concrete values.
use aria_bridge.Prelude.{
  true, false, Text, text, text_eq, lower, includes, none, List, [], ◌∷◌, ◌≡◌, refl, ◌≢◌,
}
use aria_bridge.Value.{
  Number, finite, nan, Value, undefined, null, num, nat, str, arr, obj, Items, items, Fields, end,
  field, truthy,
}
use aria_bridge.Value.Props.{get}
use aria_bridge.Mcp.Validation.{
  ok, throws, levels, normalize_items, normalize_array, normalize_one, SubscribeArgs,
  validate_subscribe_args, number_of, coerce_positive_int, ControlArgs, validate_control_args,
}
use aria_bridge.Mcp.Validation.Arguments.{IsPositive, validate_control_args_sound}

code : Unit {0}
unfolding lower text_eq includes truthy get normalize_items normalize_array normalize_one
    validate_subscribe_args number_of coerce_positive_int validate_control_args
code = tt

abbrev mixed : Items
mixed = items (str (text "Warn") ∷ str (text "errors") ∷ str (text "WARN") ∷ [])

abbrev warn_errors : List Text
warn_errors = text "warn" ∷ text "errors" ∷ []

normalizes : normalize_array (arr mixed) levels (text "levels") ≡ ok warn_errors
unfolding code
normalizes = refl

refuses :
    (normalize_array (str (text "warn")) levels (text "levels")
      ≡ throws (text "levels must be an array"))
    × (normalize_array (arr (items (nat 1 ∷ []))) levels (text "levels")
        ≡ throws (text "levels must contain strings"))
    × (normalize_array (arr (items (str (text "All") ∷ []))) levels (text "levels")
        ≡ throws (text "levels has invalid entry: All"))
unfolding code
refuses = (refl, refl, refl)

abbrev no_number : Value → Number
no_number v = nan

abbrev asked : Fields
asked =
    field (text "action") (str (text "screenshot"))
      (field (text "timeoutMs") (num (finite false 1 1)) end)

-- Half a millisecond is accepted.
abbrev checked : ControlArgs
checked = record {
  action = text "screenshot";
  args = undefined;
  code = none;
  timeout_ms = finite false 1 1;
  expect_result = true;
}

half_passes : validate_control_args no_number (obj asked) ≡ ok checked
unfolding code
half_passes = refl

control_refuses :
    (validate_control_args no_number null ≡ throws (text "control arguments must be an object"))
    × (validate_control_args no_number (arr (items []))
        ≡ throws (text "control action is required"))
unfolding code
control_refuses = (refl, refl)

abbrev default_args : SubscribeArgs
default_args = record { levels = text "errors" ∷ []; capabilities = none; llm_filter = none }

defaults : validate_subscribe_args undefined ≡ ok default_args
unfolding code
defaults = refl

validate_control_args_sound_example :
    (fs : Fields) × (obj asked ≡ obj fs)
    × (get (text "action") fs ≡ str checked.action)
    × (checked.action ≢ [])
    × (checked.args ≡ get (text "args") fs)
    × IsPositive checked.timeout_ms
validate_control_args_sound_example =
    validate_control_args_sound no_number (obj asked) checked half_passes
