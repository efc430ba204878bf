-- ===== src/Value.antt =====
-- The values of the language: what JSON text stands for, and what the program builds before it
-- calls `JSON.stringify`. `src/types.ts` names the shapes of the objects that travel.
pub mod Props
pub mod Numbers
use aria_bridge.Prelude.{ℕ, Bool, true, false, not, ◌&&◌, Text, text, List, [], ◌∷◌, ◌==◌}

-- A number of the language: a finite one is ± mantissa / 2 ^ shift.
pub data Number : Type 0 where
  finite : (negative : Bool) (mantissa shift : ℕ) → Number
  infinite : (negative : Bool) → Number
  nan : Number

mutual
  pub data Value : Type 0 where
    undefined null : Value
    bool : Bool → Value
    num : Number → Value
    str : Text → Value
    arr : Items → Value
    obj : Fields → Value

  pub data Items : Type 0 where
    nil : Items
    cons : Value → Items → Items

  -- The own properties of an object, in the order of `Object.entries`, each name once.
  pub data Fields : Type 0 where
    end : Fields
    field : Text → Value → Fields → Fields

-- A number that counts.
abbrev pub nat : ℕ → Value
nat n = num (finite false n 0)

-- `Boolean(v)`: what a test such as `!v` or `v || w` reads.
unfoldable pub truthy : Value → Bool
truthy undefined = false
truthy null = false
truthy (bool b) = b
truthy (num (finite negative mantissa shift)) = not (mantissa == 0)
truthy (num (infinite negative)) = true
truthy (num nan) = false
truthy (str []) = false
truthy (str (c ∷ s)) = true
truthy (arr xs) = true
truthy (obj fs) = true

abbrev pub items : List Value → Items
items [] = nil
items (v ∷ vs) = cons v (items vs)

abbrev pub elems : Items → List Value
elems nil = []
elems (cons v xs) = v ∷ elems xs

-- `xs.map(f)`.
unfoldable pub map_items : (Value → Value) → Items → Items
map_items f nil = nil
map_items f (cons v xs) = cons (f v) (map_items f xs)
