-- ===== src/Client/Serialize/Size.antt =====
-- `safeSerialize`, src/client.ts: how deep and how wide its values are.
use aria_bridge.Prelude.{
  ℕ, ◌+◌, ◌≤◌, max, suc, zero, Text, List, [], ◌∷◌, length, take, length-take, arith, All, All-take,
}
use aria_bridge.Value.{
  Value, undefined, null, bool, num, str, arr, obj, Items, nil, cons, Fields, end, field,
}
use aria_bridge.Value.Props.{put}
use aria_bridge.Client.Serialize.{
  Arg, missing, nothing, boolean, number, string, error, function, symbol, bigint, reference,
  Property, holds, fails, Own, Cell, array, object, Serialized, serialize_items, serialize_property,
  serialize_keys, serialize_cell, serialize_value, safe_serialize,
}

-- How deep arrays and objects are nested.
unfoldable mutual
  pub height : Value → ℕ
  height undefined = 0
  height null = 0
  height (bool b) = 0
  height (num n) = 0
  height (str s) = 0
  height (arr xs) = suc (items_height xs)
  height (obj fs) = suc (fields_height fs)

  pub items_height : Items → ℕ
  items_height nil = 0
  items_height (cons v xs) = max (height v) (items_height xs)

  pub fields_height : Fields → ℕ
  fields_height end = 0
  fields_height (field k v fs) = max (height v) (fields_height fs)

unfoldable pub items_count : Items → ℕ
items_count nil = 0
items_count (cons v xs) = suc (items_count xs)

unfoldable pub fields_count : Fields → ℕ
fields_count end = 0
fields_count (field k v fs) = suc (fields_count fs)

-- The most entries that an array or an object has.
unfoldable mutual
  pub width : Value → ℕ
  width undefined = 0
  width null = 0
  width (bool b) = 0
  width (num n) = 0
  width (str s) = 0
  width (arr xs) = max (items_count xs) (items_width xs)
  width (obj fs) = max (fields_count fs) (fields_width fs)

  pub items_width : Items → ℕ
  items_width nil = 0
  items_width (cons v xs) = max (width v) (items_width xs)

  pub fields_width : Fields → ℕ
  fields_width end = 0
  fields_width (field k v fs) = max (width v) (fields_width fs)

-- Nested at most `depth` deep, with at most `most` entries in each array and object.
abbrev pub Fits : ℕ → ℕ → Value → Type 0
Fits most depth v = (height v ≤ depth) × (width v ≤ most)

-- The values that an error carries fit.
abbrev pub CarriesSmall : ℕ → ℕ → Arg → Type 0
CarriesSmall most h (error name message stack) =
    Fits most h name × Fits most h message × Fits most h stack
CarriesSmall most h _ = Unit

abbrev pub ReadsSmall : ℕ → ℕ → Property → Type 0
ReadsSmall most h (holds v) = CarriesSmall most h v
ReadsSmall most h (fails message) = Unit

-- So do those of all errors in an array or an object.
abbrev pub HoldsSmall : ℕ → ℕ → Cell → Type 0
HoldsSmall most h (array vs) = All (CarriesSmall most h) vs
HoldsSmall most h (object owns) = All (λ own. ReadsSmall most h own.property) owns

fields_height-put :
    (k : Text) (v : Value) (fs : Fields)
    → fields_height (put k v fs) ≤ max (height v) (fields_height fs)
unfolding put fields_height
fields_height-put k v end = omega arith
fields_height-put k v (field j w fs) = ground (arith, fields_height-put k v fs)

fields_width-put :
    (k : Text) (v : Value) (fs : Fields)
    → fields_width (put k v fs) ≤ max (width v) (fields_width fs)
unfolding put fields_width
fields_width-put k v end = omega arith
fields_width-put k v (field j w fs) = ground (arith, fields_width-put k v fs)

fields_count-put :
    (k : Text) (v : Value) (fs : Fields) → fields_count (put k v fs) ≤ suc (fields_count fs)
unfolding put fields_count
fields_count-put k v end = omega arith
fields_count-put k v (field j w fs) = ground (arith, fields_count-put k v fs)

module _ (most h : ℕ) (wide : 20 ≤ most) where
  abbrev ItemsFit : ℕ → ℕ → Items → Type 0
  ItemsFit depth n xs = (items_height xs ≤ depth) × (items_width xs ≤ most) × (items_count xs ≤ n)

  abbrev FieldsFit : ℕ → ℕ → Fields → Type 0
  FieldsFit depth n fs =
      (fields_height fs ≤ depth) × (fields_width fs ≤ most) × (fields_count fs ≤ n)

  put-FieldsFit :
      (depth n : ℕ) (k : Text) (v : Value) (fs : Fields)
      → Fits most depth v
      → FieldsFit depth n fs
      → FieldsFit depth (suc n) (put k v fs)
  put-FieldsFit depth n k v fs f g =
      ground (arith, fields_height-put k v fs, fields_width-put k v fs, fields_count-put k v fs)

  module _ (depth : ℕ) (deeper : Arg → List ℕ → Serialized)
      (deeper-Fits : (v : Arg) (seen : List ℕ)
        → CarriesSmall most h v
        → Fits most depth (deeper v seen).value)
      (carried : h ≤ depth) where
    serialize_items-ItemsFit :
        (vs : List Arg) (seen : List ℕ)
        → All (CarriesSmall most h) vs
        → ItemsFit depth (length vs) (serialize_items deeper vs seen).items
    unfolding serialize_items items_height items_width items_count
    serialize_items-ItemsFit [] seen s = ground arith
    serialize_items-ItemsFit (v ∷ vs) seen (c, s) =
        ground (arith, deeper-Fits v seen c, serialize_items-ItemsFit vs (deeper v seen).seen s)

    serialize_property-Fits :
        (p : Property) (seen : List ℕ)
        → ReadsSmall most h p
        → Fits most depth (serialize_property deeper p seen).value
    unfolding serialize_property height width
    serialize_property-Fits (holds v) seen s = deeper-Fits v seen s
    serialize_property-Fits (fails message) seen s = ground arith

    serialize_keys-FieldsFit :
        (n : ℕ) (owns : List Own) (output : Fields) (seen : List ℕ)
        → All (λ own. ReadsSmall most h own.property) owns
        → FieldsFit depth n output
        → FieldsFit depth (n + length owns) (serialize_keys deeper owns output seen).output
    unfolding serialize_keys
    serialize_keys-FieldsFit n [] output seen s f = ground arith
    serialize_keys-FieldsFit n (own ∷ owns) output seen (c, s) f =
        let read = serialize_property deeper own.property seen in
        let rest =
          serialize_keys-FieldsFit (suc n) owns (put own.key read.value output) read.seen s (
            put-FieldsFit depth n own.key read.value output
              (serialize_property-Fits own.property seen c) f) in
        ground (arith, rest)

    serialize_cell-Fits :
        (c : Cell) (seen : List ℕ)
        → HoldsSmall most h c
        → Fits most (suc depth) (serialize_cell deeper c seen).value
    unfolding serialize_cell height width fields_height fields_width fields_count
    serialize_cell-Fits (array vs) seen s = ground (
      arith,
      serialize_items-ItemsFit (take 20 vs) seen (All-take (CarriesSmall most h) 20 vs s),
      length-take 20 vs,
    )
    serialize_cell-Fits (object owns) seen s =
        let few = All-take (λ own. ReadsSmall most h own.property) 20 owns s in
        ground (
          arith,
          serialize_keys-FieldsFit 0 (take 20 owns) end seen few
              ((omega arith, omega arith, omega arith)),
          length-take 20 owns,
        )

    serialize_value-Fits :
        (heap : ℕ → Cell) (v : Arg) (seen : List ℕ)
        → ((place : ℕ) → HoldsSmall most h (heap place))
        → CarriesSmall most h v
        → Fits most (suc depth) (serialize_value deeper heap v seen).value
    unfolding serialize_value height width fields_height fields_width fields_count
    serialize_value-Fits heap missing seen held s = ground arith
    serialize_value-Fits heap nothing seen held s = ground arith
    serialize_value-Fits heap (boolean b) seen held s = ground arith
    serialize_value-Fits heap (number n) seen held s = ground arith
    serialize_value-Fits heap (string t) seen held s = ground arith
    serialize_value-Fits heap (error name message stack) seen held s = omega arith
    serialize_value-Fits heap (function name) seen held s = ground arith
    serialize_value-Fits heap (symbol printed) seen held s = ground arith
    serialize_value-Fits heap (bigint printed) seen held s = ground arith
    serialize_value-Fits heap (reference place) seen held s =
        ground (arith, serialize_cell-Fits (heap place) (place ∷ seen) (held place))

-- Whatever the heap is, cycles and getters that throw included: where the names, messages and stacks
-- of its errors nest arrays and objects at most `h` deep, with no more than `most` entries each, and
-- `most` is at least 20, what a value is serialized to nests them no deeper than the depth and `h`
-- together, and each of them has no more than `most` entries.
pub safe_serialize-Fits :
    (most h : ℕ) (heap : ℕ → Cell) (depth : ℕ) (v : Arg) (seen : List ℕ)
    → 20 ≤ most
    → ((place : ℕ) → HoldsSmall most h (heap place))
    → CarriesSmall most h v
    → Fits most (depth + h) (safe_serialize heap depth v seen).value
unfolding safe_serialize height width
safe_serialize-Fits most h heap zero v seen wide held s = ground arith
safe_serialize-Fits most h heap (suc depth) v seen wide held s =
    let (tall, narrow) =
      serialize_value-Fits most h wide (depth + h) (safe_serialize heap depth)
        (λ w seen' c. safe_serialize-Fits most h heap depth w seen' wide held c) (omega arith) heap
        v seen held s in
    (omega (arith, tall), narrow)
