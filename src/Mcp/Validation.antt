-- ===== src/Mcp/Validation.antt =====
-- src/mcp/validation.ts: the arguments of the tools, checked before they are used.
pub mod Arrays
pub mod Arguments
mod Tests
use aria_bridge.Prelude.{
  Bool, true, false, not, ◌||◌, ◌==◌, Text, text, lower, includes, if◌then◌else◌, Option, none,
  some, List, [], ◌∷◌, ◌++◌,
}
use aria_bridge.Value.{
  Number, finite, Value, undefined, null, num, str, arr, obj, Items, nil, cons, items, truthy,
}
use aria_bridge.Value.Props.{get}

-- A value, or the message of the error that was thrown.
pub data Result {ℓ} (A : Type ℓ) : Type ℓ where
  ok : A → Result A
  throws : Text → Result A

infixl 5 ◌>>=◌
abbrev pub ◌>>=◌ {ℓ κ} : {A : Type ℓ} {B : Type κ} → Result A → (A → Result B) → Result B
ok a >>= f = f a
throws e >>= f = throws e

abbrev pub levels : List Text
levels = text "errors" ∷ text "warn" ∷ text "info" ∷ text "trace" ∷ []

abbrev pub caps : List Text
caps =
    text "error"
    ∷ text "console"
    ∷ text "pageview"
    ∷ text "navigation"
    ∷ text "screenshot"
    ∷ text "network"
    ∷ text "control"
    ∷ []

abbrev pub filters : List Text
filters = text "off" ∷ text "minimal" ∷ text "aggressive" ∷ []

-- `normalized.push(lower)` unless it is there.
abbrev pub add_new : Text → List Text → List Text
add_new t xs = if includes xs t then xs else xs ++ t ∷ []

-- The loop of `normalizeArray`, with what was collected so far.
unfoldable pub normalize_items : List Text → Text → List Text → Items → Result (List Text)
normalize_items allowed name normalized nil = ok normalized
normalize_items allowed name normalized (cons (str item) rest) =
    let added = normalize_items allowed name (add_new (lower item) normalized) rest in
    if not (includes allowed (lower item))
    then throws (name ++ (text " has invalid entry: " ++ item))
    else added
normalize_items allowed name normalized (cons item rest) =
    throws (name ++ text " must contain strings")

unfoldable pub normalize_array : Value → List Text → Text → Result (List Text)
normalize_array undefined allowed name = ok []
normalize_array (arr xs) allowed name = normalize_items allowed name [] xs
normalize_array val allowed name = throws (name ++ text " must be an array")

unfoldable pub normalize_one : Value → List Text → Text → Result Text
normalize_one (str val) allowed name =
    if not (includes allowed (lower val))
    then throws (name ++ (text " has invalid value: " ++ val))
    else ok (lower val)
normalize_one val allowed name = throws (name ++ text " must be a string")

-- `raw?.name`.
abbrev pub prop : Text → Value → Value
prop name (obj fs) = get name fs
prop name v = undefined

-- `v ?? w`.
abbrev pub nullish_or : Value → Value → Value
nullish_or undefined w = w
nullish_or null w = w
nullish_or v w = v

-- `v ? f(v) : undefined`.
abbrev pub when_truthy {ℓ} : {A : Type ℓ} → Value → Result A → Result (Option A)
when_truthy v r = if truthy v then (r >>= λ a. ok (some a)) else ok none

pub record SubscribeArgs : Type 0 where
  pub levels : List Text
  pub capabilities : Option (List Text)
  pub llm_filter : Option Text

unfoldable pub validate_subscribe_args : Value → Result SubscribeArgs
validate_subscribe_args raw = do
  ls ←
      normalize_array
        (nullish_or (prop (text "levels") raw) (arr (items (str (text "errors") ∷ [])))) levels
        (text "levels")
  cs ←
      when_truthy (prop (text "capabilities") raw)
        (normalize_array (prop (text "capabilities") raw) caps (text "capabilities"))
  f ←
      when_truthy (prop (text "llm_filter") raw)
        (normalize_one (prop (text "llm_filter") raw) filters (text "llm_filter"))
  ok (record { levels = ls; capabilities = cs; llm_filter = f })

-- `!Number.isFinite(num) || num <= 0`, negated.
abbrev pub is_positive : Number → Bool
is_positive (finite false mantissa shift) = not (mantissa == 0)
is_positive n = false

-- `Number(val)`, for the values that are no numbers, is the parameter `to_number`.
unfoldable pub number_of : (Value → Number) → Value → Number
number_of to_number (num n) = n
number_of to_number v = to_number v

unfoldable pub coerce_positive_int : (Value → Number) → Value → Text → Result Number
coerce_positive_int to_number val name =
    if is_positive (number_of to_number val)
    then ok (number_of to_number val)
    else throws (name ++ text " must be a positive number")

pub record ControlArgs : Type 0 where
  pub action : Text
  pub args : Value
  pub code : Option Text
  pub timeout_ms : Number
  pub expect_result : Bool

abbrev pub text_of : Value → Option Text
text_of (str s) = some s
text_of v = none

abbrev pub is_undefined : Value → Bool
is_undefined undefined = true
is_undefined v = false

abbrev pub as_action : Value → Result Text
as_action (str (c ∷ s)) = ok (c ∷ s)
as_action v = throws (text "control action is required")

-- `!raw || typeof raw !== 'object'`, negated: an array is an object with none of the properties.
abbrev pub is_object : Value → Bool
is_object (obj fs) = true
is_object (arr xs) = true
is_object v = false

unfoldable pub validate_control_args : (Value → Number) → Value → Result ControlArgs
validate_control_args to_number raw =
    let timeout_val = prop (text "timeoutMs") raw in
    let expect = prop (text "expectResult") raw in
    let checked = do
      action ← as_action (prop (text "action") raw)
      timeout_ms ←
          (if is_undefined timeout_val
            then ok (finite false 10000 0)
            else coerce_positive_int to_number timeout_val (text "timeoutMs"))
      ok (record {
        action = action;
        args = prop (text "args") raw;
        code = text_of (prop (text "code") raw);
        timeout_ms = timeout_ms;
        expect_result = if is_undefined expect then true else truthy expect;
      })
    in if is_object raw then checked else throws (text "control arguments must be an object")
