-- ===== src/Client/Serialize/Tests.antt =====
-- `safeSerialize` at concrete values.
use aria_bridge.Prelude.{arith, ℕ, suc, zero, true, text, text_eq, [], ◌∷◌, ◌≡◌, refl}
use aria_bridge.Value.{Value, undefined, str, arr, obj, nil, cons, end, field}
use aria_bridge.Value.{finite}
use aria_bridge.Value.Props.{put}
use aria_bridge.Client.Serialize.{
  error, number, function, reference, holds, fails, Cell, array, object, serialize_items,
  serialize_property, serialize_keys, serialize_cell, serialize_value, safe_serialize,
}
use aria_bridge.Client.Serialize.Size.{Fits, HoldsSmall, safe_serialize-Fits}

code : Unit {0}
unfolding text_eq put serialize_items serialize_property serialize_keys serialize_cell
    serialize_value safe_serialize
code = tt

-- Place 0 has the arguments of a call, which are place 1 twice and a function; place 1 holds itself,
-- a number and a property that throws.
abbrev heap : ℕ → Cell
heap zero = array (reference 1 ∷ reference 1 ∷ function [] ∷ [])
heap (suc p) = object (
    record { key = text "self"; property = holds (reference 1) }
    ∷ record { key = text "n"; property = holds (number (finite true 1 0)) }
    ∷ record { key = text "bad"; property = fails (text "no") }
    ∷ [])

abbrev circular : Value
circular = str (text "[circular]")

-- The second argument is called circular, although it is only the first one again.
repeated :
    (safe_serialize heap 3 (reference 0) []).value
    ≡ arr (
        cons
          (obj (
            field (text "self") circular (
              field
                (text "n")
                (Value.num (finite true 1 0))
                (field (text "bad") (str (text "[error serializing: no]")) end))))
          (cons circular (cons (str (text "[function anonymous]")) nil)))
unfolding code
repeated = refl

abbrev deep : Value
deep = obj (field (text "a") (arr (cons (arr nil) nil)) end)

-- What an error carries is sent as deep as it is.
deep_error :
    (safe_serialize heap 1 (error (str (text "E")) deep undefined) []).value
    ≡ obj (
        field
          (text "name")
          (str (text "E"))
          (field (text "message") deep (field (text "stack") undefined end)))
unfolding code
deep_error = refl

held_small : (place : ℕ) → HoldsSmall 20 0 (heap place)
held_small zero = (tt, (tt, (tt, tt)))
held_small (suc p) = (tt, (tt, (tt, tt)))

safe_serialize-Fits_example : Fits 20 3 (safe_serialize heap 3 (reference 0) []).value
safe_serialize-Fits_example =
    safe_serialize-Fits 20 0 heap 3 (reference 0) [] (omega arith) held_small tt
