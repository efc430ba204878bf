-- ===== src/Client/Serialize.antt =====
-- `safeSerialize`, src/client.ts: the arguments of a console call, cut to a size and made of values
-- alone. Left out are a property named
-- `__proto__`, and an array whose items throw when they are read.
pub mod Size
mod Tests
use aria_bridge.Prelude.{
  ℕ, ◌-◌, suc, zero, Bool, ◌==◌, Text, text, Option, none, some, List, [], ◌∷◌, ◌++◌, any, take,
  if◌then◌else◌,
}
use aria_bridge.Value.{
  Number, Value, undefined, null, bool, num, str, arr, obj, Items, nil, cons, Fields, end, field,
}
use aria_bridge.Value.Props.{put}

-- A value that a program holds. Arrays and objects are known by their place in the heap, so that they
-- may hold themselves.
pub data Arg : Type 0 where
  missing nothing : Arg
  boolean : Bool → Arg
  number : Number → Arg
  string : Text → Arg
  -- The name, the message and the stack may be any values, here as they are sent: none holds itself.
  error : (name message stack : Value) → Arg
  function : (name : Text) → Arg
  symbol bigint : (printed : Text) → Arg
  reference : ℕ → Arg

-- Reading a property gives a value, or calls a getter that throws an error with a message.
pub data Property : Type 0 where
  holds : Arg → Property
  fails : (message : Text) → Property

pub record Own : Type 0 where
  pub key : Text
  pub property : Property

-- An array, or an object with its own properties in the order of `Object.keys`.
pub data Cell : Type 0 where
  array : List Arg → Cell
  object : List Own → Cell

-- What a call returns, and the set of the places that were seen.
pub record Serialized : Type 0 where
  pub value : Value
  pub seen : List ℕ

pub record SerializedItems : Type 0 where
  pub items : Items
  pub seen : List ℕ

pub record SerializedFields : Type 0 where
  pub output : Fields
  pub seen : List ℕ

abbrev pub function_name : Text → Text
function_name [] = text "anonymous"
function_name (c ∷ s) = c ∷ s

-- `value.slice(0, 20).map(…)`, the call one level deeper as an argument.
unfoldable pub serialize_items : (Arg → List ℕ → Serialized) → List Arg → List ℕ → SerializedItems
serialize_items deeper [] seen = record { items = nil; seen = seen }
serialize_items deeper (item ∷ rest) seen =
    let first = deeper item seen in
    let others = serialize_items deeper rest first.seen in
    record { items = cons first.value others.items; seen = others.seen }

-- The value of one property.
unfoldable pub serialize_property : (Arg → List ℕ → Serialized) → Property → List ℕ → Serialized
serialize_property deeper (holds v) seen = deeper v seen
serialize_property deeper (fails message) seen = record {
  value = str (text "[error serializing: " ++ (message ++ text "]"));
  seen = seen;
}

-- The loop over the keys.
unfoldable pub serialize_keys :
    (Arg → List ℕ → Serialized) → List Own → Fields → List ℕ → SerializedFields
serialize_keys deeper [] output seen = record { output = output; seen = seen }
serialize_keys deeper (own ∷ rest) output seen =
    let read = serialize_property deeper own.property seen in
    serialize_keys deeper rest (put own.key read.value output) read.seen

unfoldable pub serialize_cell : (Arg → List ℕ → Serialized) → Cell → List ℕ → Serialized
serialize_cell deeper (array items) seen =
    let mapped = serialize_items deeper (take 20 items) seen in
    record { value = arr mapped.items; seen = mapped.seen }
serialize_cell deeper (object owns) seen =
    let walked = serialize_keys deeper (take 20 owns) end seen in
    record { value = obj walked.output; seen = walked.seen }

-- A value above the depth limit.
unfoldable pub serialize_value :
    (Arg → List ℕ → Serialized) → (ℕ → Cell) → Arg → List ℕ → Serialized
serialize_value deeper heap missing seen = record { value = undefined; seen = seen }
serialize_value deeper heap nothing seen = record { value = null; seen = seen }
serialize_value deeper heap (boolean b) seen = record { value = bool b; seen = seen }
serialize_value deeper heap (number n) seen = record { value = num n; seen = seen }
serialize_value deeper heap (string s) seen = record { value = str s; seen = seen }
serialize_value deeper heap (error name message stack) seen = record {
  value =
      obj (
        field (text "name") name (field (text "message") message (field (text "stack") stack end)));
  seen = seen;
}
serialize_value deeper heap (function name) seen = record {
  value = str (text "[function " ++ (function_name name ++ text "]"));
  seen = seen;
}
serialize_value deeper heap (symbol printed) seen = record { value = str printed; seen = seen }
serialize_value deeper heap (bigint printed) seen = record { value = str printed; seen = seen }
serialize_value deeper heap (reference place) seen =
    if any (λ p. p == place) seen
    then record { value = str (text "[circular]"); seen = seen }
    else serialize_cell deeper (heap place) (place ∷ seen)

-- `safeSerialize(value, depth, seen)`.
unfoldable pub safe_serialize : (ℕ → Cell) → ℕ → Arg → List ℕ → Serialized
safe_serialize heap zero v seen = record { value = str (text "[depth limit]"); seen = seen }
safe_serialize heap (suc depth) v seen = serialize_value (safe_serialize heap depth) heap v seen
