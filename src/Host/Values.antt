-- ===== src/Host/Values.antt =====
-- bin/aria-bridge-host.js: what the host makes of the values in a message, which may be anything that
-- JSON can hold. `none` is an error that is thrown.
use aria_bridge.Prelude.{
  ℕ, ◌+◌, Bool, true, false, not, ◌&&◌, ◌||◌, Text, text, text_eq, includes, index_of, any, filter,
  map, contains, decimal, if◌then◌else◌, Option, none, some, List, [], ◌∷◌,
}
use aria_bridge.Prelude as P
use aria_bridge.Value.{
  Value, undefined, null, str, arr, obj, Items, nil, cons, Fields, end, field, elems, truthy,
}
use aria_bridge.Value.Props.{get, has}
use aria_bridge.HostUtils.{level_order, index_ge, not_empty}

-- `message.name`, of anything but `null` and `undefined`.
abbrev pub prop : Text → Value → Value
prop name (obj fs) = get name fs
prop name v = undefined

-- `v || w`.
abbrev pub or : Value → Value → Value
or v w = if truthy v then v else w

-- `v === word`.
abbrev pub is_word : Text → Value → Bool
is_word word (str s) = text_eq s word
is_word word v = false

-- `f(v)`, where `v` was got.
infixl 5 ◌>>=◌
abbrev pub ◌>>=◌ {ℓ κ} : {A : Type ℓ} {B : Type κ} → Option A → (A → Option B) → Option B
none >>= f = none
some a >>= f = f a

-- Whether a value can be made a text: an object with a property `toString`, which is no function in
-- a message, cannot.
unfoldable mutual
  unfolding has

  pub printable : Value → Bool
  printable (arr xs) = printable_items xs
  printable (obj fs) = not (has (text "toString") fs)
  printable v = true

  pub printable_items : Items → Bool
  printable_items nil = true
  printable_items (cons v xs) = printable v && printable_items xs

-- `v.join(', ')`, which only a list has.
abbrev pub joins : Value → Bool
joins (arr xs) = printable_items xs
joins v = false

-- The list that a value is, or the other one where the value is false.
abbrev pub list_or : List Value → Value → Option (List Value)
list_or others (arr xs) = some (elems xs)
list_or others v = if truthy v then none else some others

-- `{ ...v }`.
abbrev pub spread_items : ℕ → Items → Fields
spread_items i nil = end
spread_items i (cons v xs) = field (decimal i) v (spread_items (i + 1) xs)

abbrev pub spread_text : ℕ → Text → Fields
spread_text i [] = end
spread_text i (c ∷ s) = field (decimal i) (str (c ∷ [])) (spread_text (i + 1) s)

abbrev pub spread : Value → Fields
spread (obj fs) = fs
spread (arr xs) = spread_items 0 xs
spread (str s) = spread_text 0 s
spread v = end

-- `toString` of what is neither a text nor `null` nor `undefined`.
module _ (to_string : Value → Text) where
  -- `lower(v)`.
  unfoldable pub lower : Value → Text
  lower undefined = []
  lower null = []
  lower (str s) = P.lower s
  lower v = if printable v then P.lower (to_string v) else []

  unfoldable pub get_subscription_level_for_log_level : Value → Text
  get_subscription_level_for_log_level log_level =
      let lvl = lower log_level in
      if text_eq lvl (text "error")
      then text "errors"
      else if text_eq lvl (text "warn")
      then text "warn"
      else if text_eq lvl (text "debug")
      then text "trace"
      else text "info"

  unfoldable pub subscription_includes_level : Value → Value → Option Bool
  subscription_includes_level subscribed_levels event_log_level =
      let event_level = get_subscription_level_for_log_level event_log_level in
      let event_index = index_of event_level level_order in
      list_or (str (text "errors") ∷ []) subscribed_levels >>= (λ levels.
        some (any (λ sub. index_ge (index_of (lower sub) level_order) event_index) levels))

  unfoldable pub bridge_has_capability : Value → Text → Option Bool
  bridge_has_capability bridge_caps capability =
      let cap = P.lower capability in
      if not (not_empty cap)
      then some false
      else list_or [] bridge_caps >>= (λ caps. some (includes (map lower caps) cap))

  unfoldable pub consumer_wants_capability : Value → Text → Option Bool
  consumer_wants_capability consumer_caps capability = list_or [] consumer_caps >>= (λ caps.
      let requested = filter not_empty (map lower caps) in
      some
        (if not (any (λ _. true) requested) then true else includes requested (P.lower capability)))
