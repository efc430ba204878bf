-- ===== src/Socket/Redact.antt =====
-- src/websocket.ts, `validateAndRedact` and `redactObject`: what happens to an event before it is
-- sent or buffered.
pub mod Laws
pub mod Idempotence
pub mod Event
mod Tests
use aria_bridge.Prelude.{
  ℕ, ◌+◌, Bool, Text, text, lower, contains, any, take, length, ltb, decimal, if◌then◌else◌, Option,
  none, some, List, [], ◌∷◌, ◌++◌,
}
use aria_bridge.Value.{Value, str, arr, obj, Items, nil, cons, Fields, end, field, map_items}
use aria_bridge.Value.Props.{get, put}

abbrev pub redact_keys : List Text
redact_keys = text "token" ∷ text "secret" ∷ text "password" ∷ []

abbrev pub redacted : Value
redacted = str (text "[redacted]")

-- `keys.some((rk) => k.toLowerCase().includes(rk))`.
unfoldable pub is_sensitive : List Text → Text → Bool
is_sensitive keys k = any (contains (lower k)) keys

-- The loop over `Object.entries` of an object: its names are distinct, so each one is new in `out`.
unfoldable pub redact_fields : List Text → Fields → Fields
redact_fields keys end = end
redact_fields keys (field k v fs) =
    field k (if is_sensitive keys k then redacted else v) (redact_fields keys fs)

-- The loop over the entries of an array: its names are its indices, in decimal.
unfoldable pub redact_items : List Text → ℕ → Items → Items
redact_items keys i nil = nil
redact_items keys i (cons v xs) =
    cons (if is_sensitive keys (decimal i) then redacted else v) (redact_items keys (i + 1) xs)

unfoldable pub redact_object : List Text → Value → Value
redact_object keys (arr xs) = arr (redact_items keys 0 xs)
redact_object keys (obj fs) = obj (redact_fields keys fs)
redact_object keys v = v

abbrev pub message_limit : ℕ
message_limit = 4000

abbrev pub truncation_mark : Text
truncation_mark = text "…[truncated]"

-- The new message, where there is a text that is too long.
unfoldable pub clip : Value → Option Value
clip (str s) =
    if ltb message_limit (length s)
    then some (str (take message_limit s ++ truncation_mark))
    else none
clip v = none

-- The new array, where there is one.
unfoldable pub redact_all : Value → Option Value
redact_all (arr xs) = some (arr (map_items (redact_object redact_keys) xs))
redact_all v = none

abbrev pub write : Text → Option Value → Fields → Fields
write name none o = o
write name (some v) o = put name v o

-- `if (… o[name] …) o[name] = …`.
unfoldable pub revise : Text → (Value → Option Value) → Fields → Fields
revise name f o = write name (f (get name o)) o

-- The three writes to the clone of the event.
unfoldable pub redact_event : Fields → Fields
redact_event event =
    let clipped = revise (text "message") clip event in
    let hidden = revise (text "args") redact_all clipped in
    revise (text "breadcrumbs") redact_all hidden

-- An event has a type that is a text and not empty.
unfoldable pub with_type : Value → Fields → Option Value
with_type (str (c ∷ s)) event = some (obj (redact_event event))
with_type v event = none

unfoldable pub validate_and_redact : Value → Option Value
validate_and_redact (obj event) = with_type (get (text "type") event) event
validate_and_redact v = none
