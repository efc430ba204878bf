-- ===== src/Socket/Redact/Idempotence.antt =====
-- src/websocket.ts, `validateAndRedact`: an event that has passed once passes unchanged.
use aria_bridge.Prelude.{
  ℕ, ◌+◌, ◌<◌, Text, take, length, ltb, length-append, length-take, take-take-append, Option, none,
  List, ◌++◌, arith, ◌≡◌, refl, ap, inl, inr, Bool-cases, Option-cases, ltb→lt, lt→ltb,
}
use aria_bridge.Value.{
  Value, undefined, str, arr, obj, Items, nil, cons, Fields, end, field, map_items,
}
use aria_bridge.Value.Props.{get}
use aria_bridge.Socket.Redact.{
  redact_keys, redact_fields, redact_items, redact_object, message_limit, truncation_mark, clip,
  redact_all, revise,
}
use aria_bridge.Socket.Redact.Laws.{or_else, write-fixed}

redact_fields_idem :
    (keys : List Text) (fs : Fields)
    → redact_fields keys (redact_fields keys fs) ≡ redact_fields keys fs
unfolding redact_fields
redact_fields_idem keys end = refl
redact_fields_idem keys (field k v fs) = ground (arith, redact_fields_idem keys fs)

redact_items_idem :
    (keys : List Text) (i : ℕ) (xs : Items)
    → redact_items keys i (redact_items keys i xs) ≡ redact_items keys i xs
unfolding redact_items
redact_items_idem keys i nil = refl
redact_items_idem keys i (cons v xs) = ground (arith, redact_items_idem keys (i + 1) xs)

redact_object_idem :
    (keys : List Text) (v : Value)
    → redact_object keys (redact_object keys v) ≡ redact_object keys v
unfolding redact_object
redact_object_idem keys (arr xs) = ap arr (redact_items_idem keys 0 xs)
redact_object_idem keys (obj fs) = ap obj (redact_fields_idem keys fs)
redact_object_idem keys _ = refl

map_redact_idem :
    (keys : List Text) (xs : Items)
    → map_items (redact_object keys) (map_items (redact_object keys) xs)
      ≡ map_items (redact_object keys) xs
unfolding map_items
map_redact_idem keys nil = refl
map_redact_idem keys (cons v xs) = cc (redact_object_idem keys v, map_redact_idem keys xs)

-- What a step leaves at its own name is left alone by the same step.
abbrev pub IsStable : (Value → Option Value) → Value → Type 0
IsStable f v = or_else (f v) v ≡ v

pub redact_all-IsStable : (v : Value) → IsStable redact_all (or_else (redact_all v) v)
unfolding redact_all
redact_all-IsStable (arr xs) = ap arr (map_redact_idem redact_keys xs)
redact_all-IsStable _ = refl

clip_long :
    (s : Text)
    → message_limit < length s
    → IsStable clip (str (take message_limit s ++ truncation_mark))
unfolding clip
clip_long s h =
    rw
      (lt→ltb message_limit (length (take message_limit s ++ truncation_mark)) (
        omega (
          arith,
          length-append (take message_limit s) truncation_mark,
          length-take message_limit s,
        )))
      (ap (λ t. str (t ++ truncation_mark))
        (take-take-append message_limit s truncation_mark (omega arith)))

pub clip-IsStable : (v : Value) → IsStable clip (or_else (clip v) v)
unfolding clip
clip-IsStable (str s) = elim (Bool-cases (ltb message_limit (length s))) [
  | inl long ↦ rw long (clip_long s (ltb→lt _ _ long))
  | inr short ↦ rw short (rw short)
]
clip-IsStable _ = refl

pub revise_of_IsStable :
    (name : Text) (f : Value → Option Value) (o : Fields)
    → f undefined ≡ none
    → IsStable f (get name o)
    → revise name f o ≡ o
unfolding revise
revise_of_IsStable name f o h stable = elim (Option-cases (f (get name o))) [
  | inl e ↦ rw (e, revise)
  | inr (v, e) ↦ write-fixed name (f (get name o)) o (λ u. ground arith) stable
]
