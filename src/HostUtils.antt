-- ===== src/HostUtils.antt =====
-- src/host-utils.ts: which events a consumer is sent, by level and by capability. A value that may be
-- missing is an `Option`; texts are the only others that the types of the source allow.
pub mod Laws
pub mod Levels
mod Tests
use aria_bridge.Prelude.{
  ℕ, Bool, true, false, ◌||◌, Text, text, text_eq, includes, index_of, any, filter, leb,
  if◌then◌else◌, Option, none, some, List, [], ◌∷◌, map, not,
}
use aria_bridge.Prelude as P

abbrev pub level_order : List Text
level_order = text "errors" ∷ text "warn" ∷ text "info" ∷ text "trace" ∷ []

-- `lower(val)`.
abbrev pub lower : Option Text → Text
lower none = []
lower (some t) = P.lower t

unfoldable pub get_subscription_level_for_log_level : Option Text → Text
get_subscription_level_for_log_level log_level =
    let lvl = lower log_level in
    if text_eq lvl (text "error")
    then text "errors"
    else if text_eq lvl (text "warn")
    then text "warn"
    else if text_eq lvl (text "debug")
    then text "trace"
    else text "info"

-- `i >= j` of two results of `indexOf`.
abbrev pub index_ge : Option ℕ → Option ℕ → Bool
index_ge i none = true
index_ge none (some j) = false
index_ge (some i) (some j) = leb j i

-- `subscribedLevels?.length ? subscribedLevels : ['errors']`.
abbrev pub levels_or_errors : Option (List Text) → List Text
levels_or_errors none = text "errors" ∷ []
levels_or_errors (some []) = text "errors" ∷ []
levels_or_errors (some (l ∷ ls)) = l ∷ ls

unfoldable pub subscription_includes_level : Option (List Text) → Option Text → Bool
subscription_includes_level subscribed_levels event_log_level =
    let event_level = get_subscription_level_for_log_level event_log_level in
    let event_index = index_of event_level level_order in
    any (λ level. index_ge (index_of (P.lower level) level_order) event_index)
      (levels_or_errors subscribed_levels)

-- `caps || []`.
abbrev pub or_empty : Option (List Text) → List Text
or_empty none = []
or_empty (some xs) = xs

-- `Boolean(s)` of a text.
abbrev pub not_empty : Text → Bool
not_empty [] = false
not_empty (c ∷ s) = true

unfoldable pub bridge_has_capability : Option (List Text) → Text → Bool
bridge_has_capability bridge_caps capability =
    let cap = P.lower capability in
    if not (not_empty cap) then false else includes (map P.lower (or_empty bridge_caps)) cap

unfoldable pub consumer_wants_capability : Option (List Text) → Text → Bool
consumer_wants_capability consumer_caps capability =
    let requested = filter not_empty (map P.lower (or_empty consumer_caps)) in
    if not (any (λ _. true) requested) then true else includes requested (P.lower capability)
